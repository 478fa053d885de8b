-- ===== src/Filament/Panel.antt =====
-- giga-filament.ino: the sketch's variables, and the handlers of touches and of frames.
use house_panel.Base.{
  ℕ, ◌/◌, ◌%◌, Bool, false, not, ◌||◌, Option, none, some, List, [], ◌∷◌, ltb, ◌==◌, if◌then◌else◌,
  Bytes,
}
use house_panel.Base.Int.{ℤ, pos, neg}
use house_panel.Base.Words.{elapsed}
use house_panel.Filament.Units.{TemperatureUnits, no_units, report, touch_landscape}

pub record Panel (F : Type 0) : Type 0 where
  pub units : TemperatureUnits
  pub touch_ready : Bool
  pub portrait_touch : Bool
  pub last_touch_poll : ℕ
  pub clock_ready : Bool
  pub sensor_ready : Bool
  pub outdoor_ready : Bool
  pub offset_minutes : ℤ
  pub temperature : F
  pub humidity : F
  pub outdoor_temperature : F
  pub outdoor_humidity : F
  pub outdoor_measured_at : ℕ
  pub outdoor_received_at : ℕ
  pub sensor_measured_at : ℕ
  pub last_frame : ℕ
  pub last_draw : ℕ
  pub last_report : ℕ
  pub last_wifi_try : ℕ
  pub last_socket_try : ℕ
  pub wifi_tried : Bool
  pub socket_tried : Bool

-- The initialisers, with `zero` for 0.0.
unfoldable pub new_panel : {F : Type 0} → F → Panel F
new_panel zero = record {
  units = no_units;
  touch_ready = false;
  portrait_touch = false;
  last_touch_poll = 0;
  clock_ready = false;
  sensor_ready = false;
  outdoor_ready = false;
  offset_minutes = pos 0;
  temperature = zero;
  humidity = zero;
  outdoor_temperature = zero;
  outdoor_humidity = zero;
  outdoor_measured_at = 0;
  outdoor_received_at = 0;
  sensor_measured_at = 0;
  last_frame = 0;
  last_draw = 0;
  last_report = 0;
  last_wifi_try = 0;
  last_socket_try = 0;
  wifi_tried = false;
  socket_tried = false;
}

-- What the handlers do outside the variables.
pub data Effect : Type 0 where
  run_updates : Effect
  draw_screen : Effect
  stop_socket : Effect
  begin_wifi : Effect
  begin_socket : Effect
  send_hello : Effect
  set_time : ℕ → Effect
  log_report : Effect

-- What `pollTouch` reads: millis(), the status register (`none` where the read fails), and the count
-- and first point of getTouchPoints().
pub record TouchPoll : Type 0 where
  pub now : ℕ
  pub status : Option ℕ
  pub contacts : ℕ
  pub raw_x : ℕ
  pub raw_y : ℕ

module _ {F : Type 0} where
  -- From the report on; the log line has no effect on the state.
  touch_report : Panel F → TouchPoll → Panel F × List Effect
  touch_report p i =
      let (x, y) : ℤ × ℤ =
        if i.contacts == 0
        then (neg 1, neg 1)
        else touch_landscape i.raw_x i.raw_y p.portrait_touch in
      let (changed, units') = report p.units (not (i.contacts == 0)) x y in
      if changed
      then (record p { units = units'; last_draw = i.now }, draw_screen ∷ [])
      else (record p { units = units' }, [])

  -- `status & 0x80` and `status & 0x0F` of a byte.
  touch_status : Panel F → TouchPoll → ℕ → Panel F × List Effect
  unfolding touch_report
  touch_status p i status =
      if status / 128 % 2 == 0 || ltb 5 (status % 16) || not (i.contacts == status % 16)
      then (p, [])
      else touch_report p i

  unfoldable pub poll_touch : Panel F → TouchPoll → Panel F × List Effect
  unfolding touch_status
  poll_touch p i =
      if not p.touch_ready || ltb (elapsed i.now p.last_touch_poll) 20
      then (p, [])
      else elim i.status [
        | none ↦ (record p { last_touch_poll = i.now }, [])
        | some status ↦ touch_status (record p { last_touch_poll = i.now }) i status
      ]

-- One round of the reading loop: the milliseconds since it started, and a byte if one is there.
abbrev pub Poll : Type 0
Poll = ℕ × Option ℕ

-- `while (count < length && millis() - started < 1000)`. A schedule that ends stands for the deadline.
unfoldable pub collect : ℕ → List Poll → Bytes
collect ℕ.zero polls = []
collect (ℕ.suc n) [] = []
collect (ℕ.suc n) ((t, read) ∷ polls) =
    let waited = collect (ℕ.suc n) polls in
    let went_on = collect n polls in
    if ltb t 1000 then elim read [ none ↦ waited | some ch ↦ ch ∷ went_on ] else []
