-- ===== src/Giga/Socket.antt =====
-- ws_client.cpp and checked_wifi_client.h: the messages to and from the server.
pub mod Payload
pub mod Hello
use house_panel.Base.{
  ℕ, zero, suc, ◌+◌, ◌-◌, ◌%◌, ◌^◌, min, Bool, true, false, not, ◌&&◌, ◌||◌, Option, none, some,
  List, [], ◌∷◌, ◌++◌, ltb, leb, ◌==◌, if◌then◌else◌, Bytes, length, codes,
}
use house_panel.Base.Int.{ℤ}
use house_panel.Base.Words.{elapsed}
use house_panel.Json.{Floats, Json}
use house_panel.Command.{CommandFrame, parse_command_frame}
use house_panel.Giga.Memory.{memory_due}

-- One `write` of CheckedWiFiClient: what it was given and what the socket took.
pub record RawWrite : Type 0 where
  pub given : ℕ
  pub taken : ℕ

-- `write_error_ |= count != length`
abbrev pub write_failed : Bool → List RawWrite → Bool
write_failed error [] = error
write_failed error (w ∷ ws) = write_failed (error || not (w.taken == w.given)) ws

-- What the library does in one call of ws_send_text, with the writes that reach the socket.
pub record Sending : Type 0 where
  pub connected : Bool
  pub begins : Bool
  pub written : ℕ
  pub ends : Bool
  pub writes : List RawWrite

pub data SendResult : Type 0 where
  refused stopped whole : SendResult

-- `capacity` is the library's WS_TX_BUFFER_SIZE. `refused` is the early return, `stopped` the one after
-- `socket.stop()`.
unfoldable pub ws_send_text : ℕ → Sending → ℕ → SendResult
ws_send_text capacity g n =
    if n == 0 || ltb capacity n || not g.connected
    then SendResult.refused
    else if not g.begins || not (g.written == n) || not g.ends || write_failed false g.writes
    then SendResult.stopped
    else SendResult.whole

-- `firmware` and the others are macros.
unfoldable pub hello_text : Bytes → Bool → Bytes → Bytes → Bytes
hello_text firmware post_ota panel_id hostname =
    codes "{\"cmd\":\"HELLO\",\"firmware_version\":\""
    ++ (firmware
        ++ (codes "\",\"post_ota\":"
            ++ ((if post_ota then codes "true" else codes "false")
                ++ (codes ",\"panel_id\":\""
                    ++ (panel_id ++ (codes "\",\"hostname\":\"" ++ (hostname ++ codes "\"}")))))))

-- `memory_first` and `memory_last`.
pub record Schedule : Type 0 where
  pub first : Bool
  pub last : ℕ

-- `memory_first = true`, the first statement of ws_send_hello.
abbrev pub memory_again : Schedule → Schedule
memory_again d = record { first = true; last = d.last }

-- ws_send_hello makes the next memory frame due; of its 256 bytes it sends nothing where the text does not
-- fit.
unfoldable pub ws_send_hello : Schedule → Bytes → Bool → Bytes → Bytes → Schedule × Option Bytes
unfolding hello_text
ws_send_hello d firmware post_ota panel_id hostname =
    let text = hello_text firmware post_ota panel_id hostname in
    (memory_again d, if ltb (length text) 256 && not (length text == 0) then some text else none)

-- `collected` is what memory_collect returns; the second result is what is sent.
unfoldable pub ws_send_memory : Schedule → Bool → ℕ → ℕ × Bytes → Schedule × Option Bytes
ws_send_memory d connected now collected =
    if not connected || not (memory_due now d.last d.first)
    then (d, none)
    else (record { first = false; last = now }, if collected.0 == 0 then none else some collected.1)

-- `_ws.read()`: a byte, or nothing at a time of the clock.
pub data Poll : Type 0 where
  got : ℕ → Poll
  waits : ℕ → Poll

abbrev pub ws_buf_size : ℕ
ws_buf_size = 256

-- The loop of ws_loop, with what is left of `cap`; the list is the polls that it makes.
unfoldable pub read_payload : List Poll → ℕ → ℕ → Bytes
read_payload [] t left = []
read_payload (p ∷ ps) t zero = []
read_payload (got b ∷ ps) t (suc left) = b ∷ read_payload ps t left
read_payload (waits now ∷ ps) t (suc left) =
    let rest = read_payload ps t (suc left) in if ltb 2000 (elapsed now t) then [] else rest

-- A C string ends at its first 0.
abbrev pub c_string : Bytes → Bytes
c_string [] = []
c_string (b ∷ bs) = if b == 0 then [] else b ∷ c_string bs

pub record Message : Type 0 where
  pub size : ℕ
  pub started : ℕ
  pub polls : List Poll

-- `min(msg_size, WS_BUF_SIZE - 1)` bytes of a message.
abbrev pub payload_of : Message → Bytes
payload_of m = read_payload m.polls m.started (min m.size (ws_buf_size - 1))

module _ (f : Floats) (j : Json f) where
  open f use {Float}

  -- `g_frame_ready` and `g_last_frame`; no message where `msg_size` is not positive. The frame that is
  -- parsed into is a new variable, `blank`.
  unfoldable pub ws_loop :
      Bool → CommandFrame Float → CommandFrame Float → Option Message → Bool × CommandFrame Float
  unfolding read_payload
  ws_loop ready last blank none = (ready, last)
  ws_loop ready last blank (some m) =
      if m.size == 0
      then (ready, last)
      else (let (ok, frame) = parse_command_frame f j (c_string (payload_of m)) blank in
          if ok then (true, frame) else (ready, last))
