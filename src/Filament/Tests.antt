-- ===== src/Filament/Tests.antt =====
-- Runs of the panel at concrete inputs. Numbers stand for floats, in tenths, and a document is a list
-- of members.
use house_panel.Base.{
  ℕ, ◌%◌, ◌≡◌, ◌≢◌, refl, true, false, Option, none, some, List, [], ◌∷◌, arith, ◌==◌,
  if◌then◌else◌, Bytes, bytes_eq,
}
use house_panel.Base.Int.{ℤ, pos, neg, ◌≤ℤ◌}
use house_panel.Json.{Json}
use house_panel.Json.Toy.{tenth_floats}
use house_panel.Filament.Font.{draw_text}
use house_panel.Filament.Font.Data.{clock_font}
use house_panel.Filament.Font.Safe.{Draws, clock, draw_text-Draws}
use house_panel.Filament.Units.{
  no_units, Touch, run_reports, run_reports-taps, taps, unit_value, touch_landscape,
  touch_landscape_on_screen,
}
use house_panel.Filament.Freshness.{sensor_is_fresh}
use house_panel.Filament.Panel.{Panel, new_panel, Poll}
use house_panel.Filament.Frame.{
  Arrival, run_frames, cmd_time, cmd_sysmon_temp, cmd_outdoor_temp, key_cmd, key_epoch,
  key_utc_offset_min, key_t, key_h, key_measured_at,
}
use house_panel.Filament.Frame.Sane.{IsSane, run_frames-IsSane}
use house_panel.Filament.Panel.{poll_touch}
use house_panel.Filament.Frame.Quiet.{tries_wifi}
use house_panel.Filament.Loop.{Pass, loop, network_step, timers}
use house_panel.Filament.Loop.Attempts.{wifi_attempts, Spaced, wifi_attempts-Spaced}
use house_panel.Filament.Screen.{
  Status, Now, draw_screen, IsLive, draw_screen-IsLive, draw_screen_stale,
}

-- A member's value: a text or a number.
data Value : Type 0 where
  text : Bytes → Value
  number : ℕ → Value

look_up : List (Bytes × Value) → Bytes → Option Value
look_up [] k = none
look_up ((k', v) ∷ d) k = if bytes_eq k' k then some v else look_up d k

text_at : List (Bytes × Value) → Bytes → Option Bytes
unfolding look_up
text_at d k = elim (look_up d k) [
  | none ↦ none
  | some v ↦ elim v [ text t ↦ some t | number n ↦ none ]
]

number_at : List (Bytes × Value) → Bytes → Option ℕ
unfolding look_up
number_at d k = elim (look_up d k) [
  | none ↦ none
  | some v ↦ elim v [ text t ↦ none | number n ↦ some n ]
]

int_at : List (Bytes × Value) → Bytes → Option ℤ
unfolding number_at
int_at d k = elim (number_at d k) [ none ↦ none | some n ↦ some (pos n) ]

-- A payload of one byte names one of three documents.
document : Bytes → Option (List (Bytes × Value))
document (x ∷ []) =
    if x == 1
    then some (
        (key_cmd, text cmd_time)
        ∷ (key_epoch, number 1_800_000_000)
        ∷ (key_utc_offset_min, number 60)
        ∷ [])
    else if x == 2
    then some (
        (key_cmd, text cmd_sysmon_temp)
        ∷ (key_t, number 215)
        ∷ (key_h, number 400)
        ∷ (key_measured_at, number 1_799_999_990)
        ∷ [])
    else if x == 3
    then some (
        (key_cmd, text cmd_outdoor_temp)
        ∷ (key_t, number 80)
        ∷ (key_h, number 900)
        ∷ (key_measured_at, number 1_799_999_000)
        ∷ [])
    else none
document payload = none

abbrev tables : Json tenth_floats
tables = record {
  Doc = List (Bytes × Value);
  deserialize = document;
  text = text_at;
  int = int_at;
  ulong = number_at;
  bool = λ d k. none;
  float = number_at;
}

abbrev fresh_panel : Panel ℕ
fresh_panel = new_panel 0

-- One byte, the second time that it is asked for.
abbrev frame : ℕ → ℕ → Arrival
frame n at = record {
  length = pos 1;
  polls = (0, none) ∷ (1, some n) ∷ [];
  now = at;
  received = at;
}

abbrev frames : List Arrival
frames = frame 1 1000 ∷ frame 2 2000 ∷ frame 3 3000 ∷ []

fresh_panel-IsSane : IsSane tenth_floats tables fresh_panel
unfolding new_panel
fresh_panel-IsSane = ground arith

run_frames-IsSane_example :
    IsSane tenth_floats tables (run_frames tenth_floats tables fresh_panel frames)
run_frames-IsSane_example =
    run_frames-IsSane tenth_floats tables fresh_panel frames fresh_panel-IsSane

-- The panel that has received the three frames, ten seconds after the filament reading.
abbrev filled : Panel ℕ
filled = record fresh_panel {
  clock_ready = true;
  sensor_ready = true;
  outdoor_ready = true;
  offset_minutes = pos 60;
  temperature = 215;
  humidity = 400;
  outdoor_temperature = 80;
  outdoor_humidity = 900;
  outdoor_measured_at = 1_799_999_000;
  outdoor_received_at = 3000;
  sensor_measured_at = 1_799_999_990;
  last_frame = 3000;
}

frames_run : run_frames tenth_floats tables fresh_panel frames ≡ filled
unfolding run_frames new_panel house_panel.Filament.Frame.receive_frame
    house_panel.Filament.Frame.dispatch house_panel.Filament.Panel.collect document text_at
    number_at int_at
frames_run = refl

abbrev soon : Now
soon = record {
  clock_seconds = 1_800_000_000;
  indoor_seconds = 1_800_000_000;
  outdoor_seconds = 1_800_000_000;
  millis = 13_000;
  connected = true;
}

draw_screen-IsLive_example :
    IsLive tenth_floats filled soon
    × ((draw_screen tenth_floats filled soon).indoor
        ≡ some (unit_value tenth_floats no_units 215, 400))
    × ((draw_screen tenth_floats filled soon).outdoor
        ≡ some (unit_value tenth_floats no_units 80, 900))
unfolding new_panel draw_screen sensor_is_fresh
draw_screen-IsLive_example = draw_screen-IsLive tenth_floats filled soon refl

abbrev late : Now
late = record {
  clock_seconds = 1_800_000_290;
  indoor_seconds = 1_800_000_290;
  outdoor_seconds = 1_800_000_290;
  millis = 303_000;
  connected = true;
}

draw_screen_stale_example :
    ((draw_screen tenth_floats filled late).indoor ≡ none)
    × ((draw_screen tenth_floats filled late).status ≢ Status.live)
draw_screen_stale_example = draw_screen_stale tenth_floats filled late (omega arith)

-- A tap, a finger that moves on, and a second tap.
abbrev touches : List Touch
touches =
    record { contact = true; x = pos 10; y = pos 200 }
    ∷ record { contact = true; x = pos 300; y = pos 300 }
    ∷ record { contact = false; x = neg 1; y = neg 1 }
    ∷ record { contact = true; x = pos 799; y = pos 424 }
    ∷ []

run_reports-taps_example :
    (run_reports no_units touches).fahrenheit
    ≡ (if taps false touches % 2 == 0 then false else true)
run_reports-taps_example = run_reports-taps no_units touches

touch_landscape_on_screen_example :
    (let (x, y) = touch_landscape 479 799 true in
      (pos 0 ≤ℤ x) × (x ≤ℤ pos 799) × (pos 0 ≤ℤ y) × (y ≤ℤ pos 479))
touch_landscape_on_screen_example =
    touch_landscape_on_screen 479 799 true (omega arith) (omega arith)

-- Half of the clock lies beyond the left edge.
draw_text-Draws_example :
    Draws (draw_text clock_font (b'1' ∷ b'2' ∷ b':' ∷ []) (neg 5) (pos 470) 0x4C_AF50)
draw_text-Draws_example =
    draw_text-Draws clock (b'1' ∷ b'2' ∷ b':' ∷ []) (neg 5) (pos 470) 0x4C_AF50

-- A pass without WiFi.
abbrev alone : ℕ → Pass
alone at = record {
  touch = record { now = at; status = none; contacts = 0; raw_x = 0; raw_y = 0 };
  now = at;
  wifi_connected = false;
  socket_connected = false;
  handshake = false;
  hello_sent = false;
  connected_at = at;
  arrival = frame 1 at;
  checked_at = at;
  drawn_at = at;
}

abbrev passes : List Pass
passes = alone 10 ∷ alone 5000 ∷ alone 15_009 ∷ alone 15_010 ∷ []

wifi_attempts_run : wifi_attempts tenth_floats tables fresh_panel passes ≡ 10 ∷ 15_010 ∷ []
unfolding wifi_attempts loop network_step poll_touch timers tries_wifi new_panel
wifi_attempts_run = refl

wifi_attempts-Spaced_example : Spaced none (wifi_attempts tenth_floats tables fresh_panel passes)
unfolding new_panel
wifi_attempts-Spaced_example = wifi_attempts-Spaced tenth_floats tables passes fresh_panel
