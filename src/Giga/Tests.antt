-- ===== src/Giga/Tests.antt =====
-- Runs of the secondary panel at concrete inputs.
use house_panel.Base.{
  ℕ, ap, zero, suc, ◌+◌, ◌-◌, ◌/◌, ◌%◌, ◌^◌, ◌≤◌, ◌≡◌, ◌≢◌, ◌↔◌, refl, true, false, none, some, [],
  ◌∷◌, ◌++◌, arith, ltb, if◌then◌else◌, Bytes, length, length-append, take, codes, if_both,
}
use house_panel.Base.Int.{pos}
use house_panel.Base.{List, ◌<◌, ◌++◌, ap}
use house_panel.Giga.Socket.{read_payload, hello_text, ws_send_hello}
use house_panel.Giga.Socket.Payload.{IsTicking, read_payload_ends}
use house_panel.Giga.Socket.Hello.{ws_send_hello_fits}
use house_panel.Giga.Sketch.Retry.{Spaced, attempts, attempts-Spaced}
use house_panel.Json.{Json}
use house_panel.Json.Toy.{tenth_floats}
use house_panel.Command.{CommandType, CommandFrame, doorbell}
use house_panel.Giga.Display.{DisplayState}
use house_panel.Giga.Memory.{memory_init, memory_due}
use house_panel.Giga.Memory.{System, memory_text, memory_collect, sample_of, memory_frame_capacity}
use house_panel.Giga.Memory.Fits.{Decimals, IsMachine, memory_collect_whole}
use house_panel.Giga.Socket.{
  Poll, got, waits, Message, payload_of, Sending, SendResult, ws_send_text,
}
use house_panel.Giga.Socket.Payload.{
  payload_of-delivered, AllWhole, ws_send_text_iff, IsTicking, read_payload_ends,
}
use house_panel.Giga.Socket.Hello.{ws_send_hello_fits}
use house_panel.Giga.Sketch.Retry.{Spaced, attempts, attempts-Spaced}
use house_panel.Giga.Display.Service.{toggles, reads}
use house_panel.Giga.Sketch.{Sketch, Pass, cal_text_size}
use house_panel.Giga.Sketch.Loop.{new_sketch, setup, loop, run_loop}
use house_panel.Giga.Sketch.Calendar.{Event, add_events, lines_of, calendar_text_is}
use house_panel.Giga.Sketch.Doorbell.{never_rings, doorbell_shown}
use house_panel.Giga.Sketch.Unit.{in_unit}
use house_panel.Giga.Sketch.Shown.{run_shown, shown_in_unit}
use house_panel.Giga.Sketch.Valid.{IsValid}
use house_panel.Giga.Sketch.Valid.Run.{run_loop-setup-IsValid}

-- Decimal digits, of which there is always one.
digits : ℕ → ℕ → Bytes
digits zero n = (48 + n % 10) ∷ []
digits (suc d) n =
    let rest = digits d (n / 10) in if ltb n 10 then (48 + n) ∷ [] else rest ++ ((48 + n % 10) ∷ [])

digits-length : (d n : ℕ) → length (digits d n) ≤ suc d
unfolding digits
digits-length zero n = omega arith
digits-length (suc d) n =
    if_both (λ b. length b ≤ suc (suc d)) (ltb n 10) ((48 + n) ∷ [])
      (digits d (n / 10) ++ ((48 + n % 10) ∷ [])) (omega arith)
      (omega
        (arith, digits-length d (n / 10), length-append (digits d (n / 10)) ((48 + n % 10) ∷ [])))

abbrev decimal : ℕ → Bytes
decimal n = if ltb n (2 ^ 32) then digits 9 n else digits 19 n

decimal_digits : Decimals decimal
decimal_digits = record {
  word_digits = λ n h. ground (arith, h, digits-length 9 n);
  long_digits = λ n h.
      if_both (λ b. length b ≤ 20) (ltb n (2 ^ 32)) _ _ (omega (arith, digits-length 9 n))
        (digits-length 19 n);
}

-- Two threads, of which the second has used all of its stack but 24 bytes.
abbrev system : System
system = record {
  uptime = 5_000_000_000;
  current_size = 90_000;
  max_size = 120_000;
  reserved_size = 400_000;
  alloc_cnt = 321;
  alloc_fail_cnt = 0;
  locks = true;
  thread_count = 2;
  threads = (4096, 1000) ∷ (768, 24) ∷ [];
  total_size = 131_000;
  free_size = 60_000;
  max_used = 80_000;
  free_biggest_size = 50_000;
}

system-IsMachine : IsMachine system
system-IsMachine = record {
  uptime_fits = omega arith;
  current_fits = omega arith;
  max_fits = omega arith;
  reserved_fits = omega arith;
  count_fits = omega arith;
  fail_fits = omega arith;
  threads_fit = omega arith;
  used_fits = omega arith;
  biggest_fits = omega arith;
}

memory_collect_whole_example :
    (let text = memory_text decimal (codes "0000abcd00000007") (sample_of system) in
      memory_collect decimal true (codes "0000abcd00000007") system memory_frame_capacity []
      ≡ (length text, text))
unfolding memory_init house_panel.Ota.Hex.to_hex house_panel.Ota.Hex.hex_digit
memory_collect_whole_example =
    memory_collect_whole decimal decimal_digits true 8 0xabcd 7 (codes "0000abcd00000007") [] system
      refl system-IsMachine refl

-- The third byte comes too late.
abbrev message : Message
message = record {
  size = 3;
  started = 100;
  polls = got b'{' ∷ waits 900 ∷ got b'}' ∷ waits 2101 ∷ got b' ' ∷ [];
}

payload_of-delivered_example : payload_of message ≡ (b'{' ∷ b'}' ∷ [])
unfolding house_panel.Giga.Socket.read_payload
payload_of-delivered_example = payload_of-delivered message

abbrev sending : Sending
sending = record {
  connected = true;
  begins = true;
  written = 5;
  ends = true;
  writes = record { given = 2; taken = 2 } ∷ record { given = 5; taken = 4 } ∷ [];
}

abbrev size : ℕ
size = 5

ws_send_text_iff_example :
    ((ws_send_text 768 sending size ≡ SendResult.whole) ↔ (
      (size ≢ 0)
      × (size ≤ 768)
      × (sending.connected ≡ true)
      × (sending.begins ≡ true)
      × (sending.written ≡ size)
      × (sending.ends ≡ true)
      × AllWhole sending.writes))
    × (size ≢ 0
        → size ≤ 768
        → sending.connected ≡ true
        → ws_send_text 768 sending size ≢ SendResult.whole
        → ws_send_text 768 sending size ≡ SendResult.stopped)
ws_send_text_iff_example = ws_send_text_iff 768 size sending

abbrev first_frame : CommandFrame ℕ
first_frame = record { type = CommandType.type_unknown; payload = doorbell (pos 0) }

abbrev panel : Sketch ℕ
panel = new_sketch tenth_floats first_frame

abbrev lunch : Event
lunch = record { idx = pos 0; summary = codes "Lunch"; time = codes "12:30"; all_day = false }

abbrev holiday : Event
holiday = record {
  idx = pos 1;
  summary = codes "Holiday";
  time = codes "2026-11-27";
  all_day = true;
}

calendar_text_is_example :
    (add_events panel (lunch ∷ holiday ∷ [])).cal_text
    ≡ take (cal_text_size - 1) (lines_of (lunch ∷ holiday ∷ []))
calendar_text_is_example = calendar_text_is panel lunch (holiday ∷ []) refl (λ e. cc, tt)

calendar_run :
    take (cal_text_size - 1) (lines_of (lunch ∷ holiday ∷ []))
    ≡ codes "12:30  Lunch\n11/27  Holiday\n"
unfolding house_panel.Giga.Sketch.calendar_line
calendar_run = refl

abbrev days : Json tenth_floats
days = record {
  Doc = Bytes;
  deserialize = λ raw. some raw;
  text = λ d k. some (codes "WEATHER_DAY");
  int = λ d k. none;
  ulong = λ d k. none;
  bool = λ d k. none;
  float = λ d k. none;
}

abbrev pass : Pass
pass = record {
  wifi_status = true;
  stale_connected = true;
  stale_now = 1000;
  retry_connected = true;
  retry_now = 1000;
  retry_at = 1000;
  connects = false;
  hello_at = 1000;
  message = some message;
  memory_connected = true;
  memory_now = 1000;
  collected = (2, b'{' ∷ b'}' ∷ []);
  frame_at = 1000;
  doorbell_now = 1000;
  indicator_now = 1000;
  indicator_at = 1000;
  indicator_wifi = true;
  indicator_ws = true;
  data_now = 1000;
  age_now = 1000;
  ip = codes "192.168.1.20";
  local = λ offset. (12, 30);
  callbacks = toggles 1000 ∷ reads (some (3, 4)) ∷ [];
}

-- A server that says DOORBELL once; thirty seconds across the wrap of the clock.
abbrev bell : Json tenth_floats
bell = record {
  Doc = Bytes;
  deserialize = λ raw. some raw;
  text = λ d k. some (codes "DOORBELL");
  int = λ d k. some (pos 30);
  ulong = λ d k. none;
  bool = λ d k. none;
  float = λ d k. none;
}

abbrev rung : Pass
rung = record pass { frame_at = 4_294_960_000; doorbell_now = 4_294_960_005 }

abbrev later : ℕ → Pass
later now = record pass { message = none; frame_at = now; doorbell_now = now }

no_second_ring :
    never_rings tenth_floats bell first_frame
      (loop tenth_floats bell first_frame panel rung).0
      (later 22_703 ∷ later 22_704 ∷ [])
    ≡ true
unfolding never_rings house_panel.Giga.Socket.ws_loop house_panel.Giga.Socket.read_payload
    house_panel.Command.parse_command_frame loop house_panel.Giga.Sketch.dispatch
    house_panel.Giga.Sketch.Loop.retry house_panel.Giga.Sketch.Loop.listen
    house_panel.Giga.Sketch.Loop.send_memory_step house_panel.Giga.Sketch.Loop.indicators
    house_panel.Giga.Sketch.Loop.update_status house_panel.Giga.Sketch.Loop.update_clock
    house_panel.Giga.Sketch.Loop.doorbell_timer house_panel.Giga.Sketch.Loop.service_step
    house_panel.Giga.Sketch.handle_frame new_sketch house_panel.Giga.Socket.ws_send_memory
    house_panel.Giga.Display.Draw.render_doorbell_interrupt
    house_panel.Giga.Display.Draw.display_update_status_detail house_panel.Giga.Display.new_display
no_second_ring = refl

doorbell_shown_example :
    (let s =
        run_loop tenth_floats bell first_frame panel (rung ∷ later 22_703 ∷ later 22_704 ∷ []) in
      s.display.state ≡ DisplayState.daily_view)
unfolding house_panel.Giga.Socket.ws_loop house_panel.Giga.Socket.read_payload
    house_panel.Command.parse_command_frame
doorbell_shown_example =
    doorbell_shown tenth_floats bell first_frame panel rung 30 (later 22_703 ∷ later 22_704 ∷ [])
      refl (omega arith) (omega arith) no_second_ring

-- The weather, and in the same pass a touch that changes the unit.
abbrev mild : Json tenth_floats
mild = record {
  Doc = Bytes;
  deserialize = λ raw. some raw;
  text = λ d k. some (codes "WEATHER");
  int = λ d k. none;
  ulong = λ d k. none;
  bool = λ d k. none;
  float = λ d k. some 200;
}

weather_came :
    (let s = (setup tenth_floats (new_sketch tenth_floats first_frame) true 900 950).0 in
      (run_shown tenth_floats mild first_frame s none (pass ∷ [])).0.display.today.valid ≡ true)
unfolding run_shown house_panel.Giga.Socket.ws_loop house_panel.Giga.Socket.read_payload
    house_panel.Command.parse_command_frame loop house_panel.Giga.Sketch.dispatch
    house_panel.Giga.Sketch.Loop.retry house_panel.Giga.Sketch.Loop.listen
    house_panel.Giga.Sketch.Loop.send_memory_step house_panel.Giga.Sketch.Loop.indicators
    house_panel.Giga.Sketch.Loop.update_status house_panel.Giga.Sketch.Loop.update_clock
    house_panel.Giga.Sketch.Loop.doorbell_timer house_panel.Giga.Sketch.Loop.service_step
    house_panel.Giga.Sketch.handle_frame new_sketch setup house_panel.Giga.Socket.ws_send_memory
    house_panel.Giga.Display.Draw.display_update_status_detail house_panel.Giga.Display.new_display
    house_panel.Giga.Display.Draw.render_weather_today
    house_panel.Giga.Display.Service.display_service house_panel.Giga.Display.Service.callback
    house_panel.Giga.Display.touch_read house_panel.Giga.Display.Draw.unit_toggle
weather_came = refl

shown_in_unit_example :
    (let s = (setup tenth_floats (new_sketch tenth_floats first_frame) true 900 950).0 in
      let (t, label) = run_shown tenth_floats mild first_frame s none (pass ∷ []) in
      label ≡ some (in_unit tenth_floats t.display.show_fahrenheit t.display.today.temp_c))
shown_in_unit_example =
    shown_in_unit tenth_floats mild first_frame first_frame true 900 950 (pass ∷ []) weather_came

run_loop-setup-IsValid_example : IsValid (
    run_loop tenth_floats days first_frame
      (setup tenth_floats (new_sketch tenth_floats first_frame) true 900 950).0
      (pass ∷ pass ∷ []))
run_loop-setup-IsValid_example =
    run_loop-setup-IsValid tenth_floats days first_frame first_frame true 900 950 (pass ∷ pass ∷ [])

-- The connection is down, and its attempts fail.
abbrev down : ℕ → Pass
down now = record pass { retry_connected = false; retry_now = now; retry_at = now + 1 }

attempts-Spaced_example :
    Spaced panel.last_ws_attempt_ms
      (attempts tenth_floats days first_frame panel (down 5000 ∷ down 9000 ∷ down 10_001 ∷ []))
attempts-Spaced_example =
    attempts-Spaced tenth_floats days first_frame (down 5000 ∷ down 9000 ∷ down 10_001 ∷ []) panel

ws_send_hello_fits_example :
    (let q =
        ws_send_hello
          (record { first = false; last = 900 })
          (codes "0.5.3")
          false
          (codes "primary")
          (codes "housepanel") in
      (q.1 ≡ some (hello_text (codes "0.5.3") false (codes "primary") (codes "housepanel")))
      × (memory_due 1000 q.0.last q.0.first ≡ true))
ws_send_hello_fits_example =
    ws_send_hello_fits (record { first = false; last = 900 }) 1000 (codes "0.5.3") (codes "primary")
      (codes "housepanel") false (omega arith) (omega arith) (omega arith)

-- Nothing ever comes.
abbrev silence : ℕ → ℕ → List Poll
silence zero now = []
silence (suc n) now = waits now ∷ silence n (suc now)

silence-IsTicking : (n k : ℕ) → n + k < 5000 → IsTicking (silence n k) 0 k
silence-IsTicking zero k h = tt
silence-IsTicking (suc n) k h = (omega arith, silence-IsTicking n (suc k) (omega (arith, h)))

silence-length : (n k : ℕ) → length (silence n k) ≡ n
silence-length zero k = refl
silence-length (suc n) k = ap suc (silence-length n (suc k))

read_payload_ends_example :
    read_payload (silence 2102 0 ++ (got b'{' ∷ [])) 0 100 ≡ read_payload (silence 2102 0) 0 100
read_payload_ends_example =
    read_payload_ends (silence 2102 0) (got b'{' ∷ []) 0 100
      (silence-IsTicking 2102 0 (omega arith)) (omega (arith, silence-length 2102 0))
