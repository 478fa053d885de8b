-- ===== src/Lib.antt =====
-- HousePanel firmware: the parts of the panels' C++ code that decide what is installed and what is
-- shown.
--
-- firmware/housepanel-giga/ota_protocol.{h,cpp}: the authenticated update. `OtaReceiver` is the record
--   `Receiver` of Ota/Receiver.antt, and its methods are `configure`, `challenge`, `begin`, `feed`,
--   `sign` and `abort` there, each from the receiver and the sink's state to the result and the new
--   states; the steps of `begin` and `feed` are functions of their own in the order of the code
--   (`admits`, `authentic`, `open_session`; `decrypt`, `digest_plain`, `inspect`, `store`,
--   `finalize`). Ota/Bits.antt has the comparison and the words, Ota/Hex.antt the key's text,
--   Ota/Keystream.antt the AES-CTR loop, and Ota/Receiver/{Vectors,Identity}.antt the checks of the
--   image. mbedtls and the sink are the parameters `Crypto` and `Sink` of Ota/Crypto.antt; what the
--   code relies on of them is `Hashes` and `Stores` in Ota/Receiver/Session.antt.
-- firmware/housepanel-giga/ota_update.cpp: the socket server around the receiver. Ota/Server.antt has the
--   variables of the file (`Server`), what a pass of `ota_loop` reads from the network, the clock and the
--   entropy source (`Pass`) and what it does outside the variables (`Effect`). `close_peer`, `reply` and
--   `flush_reply` are in Ota/Server/Reply.antt, `status` and `ota_init` in Ota/Server/Status.antt, and
--   `ota_loop` in Ota/Server/Loop.antt, with its parts in the order of the code (`disconnect`, `listen`,
--   `serve`, `converse`, `receive`, `read_header`, `authorize`, `feed_body`). The class `FileSink` is
--   Ota/FileSink.antt, over the calls of stdio (`Files`); what it relies on of the volume is `Volume` and
--   `Separate` in Ota/FileSink/Staging.antt.
-- firmware/giga-filament: the display of the primary panel. temperature_units.h is
--   Filament/Units.antt, sensor_freshness.h is Filament/Freshness.antt, smooth_font.h is
--   Filament/Font/Data.antt with the pixel arrays beside it, and giga-filament.ino is
--   Filament/Font.antt (findGlyph, drawText), Filament/Panel.antt (the variables, pollTouch),
--   Filament/Frame.antt (receiveFrame), Filament/Screen.antt (drawScreen) and Filament/Loop.antt
--   (connectSocket, loop). Float arithmetic and ArduinoJson are the parameters `Floats` and `Json` of
--   Json.antt. What a handler does outside its variables is a list of effects.
-- firmware/housepanel-giga/command_parser.{h,cpp}: the commands of the secondary panel.
--   `parse_command_frame` is in Command.antt, with the union of `CommandFrame` as the sum `Payload`.
-- firmware/housepanel-giga, the rest of the secondary panel: housepanel-giga.ino is Giga/Sketch.antt with
--   Giga/Sketch/Loop.antt, whose `loop` takes the state and what a pass reads (`Pass`) to the new state
--   and a list of actions; display.cpp is Giga/Display.antt, the state behind the widgets, and
--   Giga/Display/Draw.antt, the handlers with what each draws, with Giga/Display/Service.antt, the
--   callbacks that LVGL runs in `display_service`; ws_client.cpp and checked_wifi_client.h are
--   Giga/Socket.antt; memory_format.cpp and memory_telemetry.cpp are Giga/Memory.antt, where snprintf's
--   decimal numbers are a parameter. The sketch takes the commands of Command.antt.
-- firmware/housepanel-giga/montserrat_96.c, the font of the large clock, which LVGL draws: the tables
--   are LargeFont/Glyphs.antt and LargeFont/Kerning.antt, the bitmaps of the digits and the colon
--   stand beside them; LargeFont/Pixels.antt puts them behind one another as `glyph_bitmap`, from the byte of
--   the "0" on.
--
-- Every loop is structural recursion, on the bytes, on a glyph's rows and columns, or on the rounds of
-- the reading loop, whose list of polls stands for the time that it is given; no fuel is needed.
-- Words are natural numbers with their wrap-around written out: millis() in Base/Words.antt, the
-- sizes and the reset vector in 32 bits, the counter in bytes.
--
-- Not modelled: the large font's other bitmaps, which hold data of the same kind; display_init, which
-- builds the LVGL widgets, and LVGL itself; the serial log, the delays and the watchdog; the calls of the WiFi
-- and WebSocket libraries in ws_connect and wifi_manager.cpp; the text formatting of the C library for
-- floats; and the services in Python.
pub mod Base
pub mod Ota
pub mod Giga
pub mod Command
pub mod Filament
pub mod Json
pub mod LargeFont
