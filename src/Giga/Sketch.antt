-- ===== src/Giga/Sketch.antt =====
-- housepanel-giga.ino: the variables, the commands of the server, and what a pass of `loop` reads.
pub mod Loop
pub mod Calendar
pub mod Bell
pub mod Timer
pub mod Doorbell
pub mod Cases
pub mod Valid
pub mod Quiet
pub mod Retry
pub mod Unit
pub mod Label
pub mod Shown
use house_panel.Base.{
  ℕ, zero, suc, ◌+◌, ◌-◌, ◌*◌, ◌/◌, ◌%◌, ◌^◌, Bool, true, false, not, ◌&&◌, ◌||◌, Option, none,
  some, List, [], ◌∷◌, ◌++◌, ltb, leb, ◌==◌, if◌then◌else◌, Bytes, length, take, drop, codes, map,
}
use house_panel.Base.Int.{ℤ, neg}
use house_panel.Base.Words.{elapsed}
use house_panel.Json.{Floats, Json}
use house_panel.Command.{
  CommandType, Payload, doorbell, ticker, weather, weather_day, cal_event, time_sync, sysmon,
  CommandFrame, to_uint32,
}
use house_panel.Giga.Display.{DisplayState, Display, Drawing, new_display}
use house_panel.Giga.Display.Draw.{
  render_weather_today, render_weather_day, render_doorbell_interrupt, dismiss_doorbell,
  render_calendar_section, display_update_sysmon, display_update_clock, display_update_indicators,
  display_update_status_detail,
}
use house_panel.Giga.Display.Service.{Callback}
use house_panel.Giga.Socket.{Message, Schedule, ws_loop, ws_send_memory}

-- The variables of the sketch and of ws_client.cpp, and the display's. `last_clock` is none where
-- `_last_clock_hhmm` is -1; `cal_text` is the text up to its terminator.
pub record Sketch (F : Type 0) : Type 0 where
  pub rtc_synced : Bool
  pub utc_offset_min : ℤ
  pub last_clock : Option ℕ
  pub doorbell_start_ms : ℕ
  pub doorbell_timeout_ms : ℕ
  pub last_data_rx_ms : ℕ
  pub last_indicator_ms : ℕ
  pub last_ws_attempt_ms : ℕ
  pub cal_text : Bytes
  pub cal_text_len : ℕ
  pub loop_count : ℕ
  pub frame_ready : Bool
  pub last_frame : CommandFrame F
  pub memory : Schedule
  pub display : Display F

pub data Action (F : Type 0) : Type 0 where
  connect_wifi force_reconnect connect_socket send_hello run_updates service_display : Action F
  send_memory : Bytes → Action F
  set_time : ℕ → Action F
  draw : Drawing F → Action F

abbrev pub draws : {F : Type 0} → List (Drawing F) → List (Action F)
draws ds = map draw ds

abbrev pub data_stale_timeout_ms : ℕ
data_stale_timeout_ms = 90_000

abbrev pub cal_text_size : ℕ
cal_text_size = 512

-- snprintf into `char line[128]`; a date has the month and the day of "YYYY-MM-DD".
unfoldable pub calendar_line : Bytes → Bytes → Bool → Bytes
calendar_line summary time all_day =
    let date =
      if leb 10 (length time)
      then take 2 (drop 5 time) ++ (codes "/" ++ take 2 (drop 8 time))
      else codes "?" in
    take 127 ((if all_day then date else time) ++ (codes "  " ++ (summary ++ codes "\n")))

module _ {F : Type 0} where
  -- The line goes to `_cal_text + _cal_text_len` as far as it fits; the length counts all of it.
  unfoldable pub append_line : Sketch F → Bytes → Sketch F
  append_line s line =
      if ltb s.cal_text_len (cal_text_size - 1)
      then record s {
        cal_text = s.cal_text ++ take (cal_text_size - 1 - s.cal_text_len) line;
        cal_text_len = s.cal_text_len + length line;
      }
      else s

  -- `idx == 0` starts the list anew.
  unfoldable pub start_list : Sketch F → ℤ → Sketch F
  start_list s (ℤ.pos zero) = record s { cal_text_len = 0; cal_text = [] }
  start_list s (ℤ.pos (suc n)) = s
  start_list s (ℤ.negsuc n) = s

  unfoldable pub add_event : Sketch F → ℤ → Bytes → Bytes → Bool → Sketch F
  unfolding start_list append_line calendar_line
  add_event s idx summary time all_day =
      append_line (start_list s idx) (calendar_line summary time all_day)

-- What a pass reads, each clock at its place; `local` is the hour and the minute of the clock under an
-- offset, `message` what the server sends, and `callbacks` what LVGL runs in
-- display_service.
pub record Pass : Type 0 where
  pub wifi_status : Bool
  pub stale_connected : Bool
  pub stale_now : ℕ
  pub retry_connected : Bool
  pub retry_now : ℕ
  pub retry_at : ℕ
  pub connects : Bool
  pub hello_at : ℕ
  pub message : Option Message
  pub memory_connected : Bool
  pub memory_now : ℕ
  pub collected : ℕ × Bytes
  pub frame_at : ℕ
  pub doorbell_now : ℕ
  pub indicator_now : ℕ
  pub indicator_at : ℕ
  pub indicator_wifi : Bool
  pub indicator_ws : Bool
  pub data_now : ℕ
  pub age_now : ℕ
  pub ip : Bytes
  pub local : ℤ → ℕ × ℕ
  pub callbacks : List Callback

module _ (f : Floats) where
  open f use {Float}

  -- The switch on the frame's type; `at` is the clock where a case reads it.
  unfoldable pub handle_frame :
      Sketch Float → CommandFrame Float → ℕ → Sketch Float × List (Action Float)
  unfolding add_event
  handle_frame s frame at = elim frame.payload [
    | doorbell seconds ↦
        let (d, ds) = render_doorbell_interrupt f s.display seconds in
        (
          record s {
            display = d;
            doorbell_start_ms = at;
            doorbell_timeout_ms = to_uint32 seconds * 1000 % 2 ^ 32;
          },
          draws ds,
        )
    | ticker text ↦ (s, [])
    | weather temp conditions high low ↦
        let (d, ds) = render_weather_today f s.display temp conditions high low in
        (record s { display = d; last_data_rx_ms = at }, draws ds)
    | weather_day idx label high low conditions ↦
        let (d, ds) = render_weather_day f s.display idx label high low conditions in
        (record s { display = d; last_data_rx_ms = at }, draws ds)
    | cal_event idx summary time all_day ↦
        let s' = add_event s idx summary time all_day in
        (record s' { last_data_rx_ms = at }, draws (render_calendar_section f s'.cal_text))
    | time_sync epoch offset ↦ if epoch == 0 then (s, []) else (
      record s { utc_offset_min = offset; rtc_synced = true; last_data_rx_ms = at },
      set_time epoch ∷ [],
    )
    | sysmon temp humidity ↦
        (record s { last_data_rx_ms = at }, draws (display_update_sysmon f temp humidity))
  ]

  -- The payload is only read where the type names it.
  unfoldable pub dispatch : Sketch Float → ℕ → Sketch Float × List (Action Float)
  unfolding handle_frame
  dispatch s at =
      let s' : Sketch Float = record s { frame_ready = false } in
      if not s.frame_ready then (s, []) else elim s.last_frame.type [
        | CommandType.type_ota_pause ↦ (s', [])
        | CommandType.type_ota_resume ↦ (s', [])
        | CommandType.type_unknown ↦ (s', [])
        | _ ↦ handle_frame s' s.last_frame at
      ]
