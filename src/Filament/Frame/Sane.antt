-- ===== src/Filament/Frame/Sane.antt =====
-- What frames can and cannot do to the panel of giga-filament.ino.
use mathlib.Core.Path.{subst}
use house_panel.Base.{
  ℕ, ◌≤◌, ◌≡◌, refl, true, List, [], ◌∷◌, arith, leb, ◌==◌, Bytes, bytes_eq, length, if_both,
  option_both, sym,
}
use house_panel.Base.Int.{ℤ, pos, negsuc, neg, ◌≤ℤ◌}
use house_panel.Json.{Floats, Json, or_else}
use house_panel.Filament.Panel.{Panel, Effect, set_time, collect}
use house_panel.Filament.Frame.{
  Arrival, accept_time, on_sensor, dispatch, on_payload, read_payload, key_cmd, key_epoch,
  key_utc_offset_min, cmd_time, receive_frame, run_frames,
}

module _ (f : Floats) (j : Json f) where
  open f use {Float, tenths, le, is_finite}
  open j use {Doc, deserialize, text, ulong, int}

  -- The readings that the screen may show are finite, a humidity is a percentage, and the offset from
  -- UTC is one of a time zone.
  pub record IsSane (p : Panel Float) : Type 0 where
    pub offset_low : neg 840 ≤ℤ p.offset_minutes
    pub offset_high : p.offset_minutes ≤ℤ pos 840
    pub indoor_t : p.sensor_ready ≡ true → is_finite p.temperature ≡ true
    pub indoor_low : p.sensor_ready ≡ true → le (tenths 0) p.humidity ≡ true
    pub indoor_high : p.sensor_ready ≡ true → le p.humidity (tenths 1000) ≡ true
    pub outdoor_t : p.outdoor_ready ≡ true → is_finite p.outdoor_temperature ≡ true
    pub outdoor_low : p.outdoor_ready ≡ true → le (tenths 0) p.outdoor_humidity ≡ true
    pub outdoor_high : p.outdoor_ready ≡ true → le p.outdoor_humidity (tenths 1000) ≡ true

  on_sensor-IsSane :
      (p : Panel Float) (d : Doc) (cmd : Bytes) (received : ℕ)
      → IsSane p
      → IsSane (on_sensor f j p d cmd received).0
  unfolding on_sensor
  on_sensor-IsSane p d cmd received v = ground arith

  -- A sensor frame does nothing outside the panel's variables.
  on_sensor-effects :
      (p : Panel Float) (d : Doc) (cmd : Bytes) (received : ℕ)
      → (on_sensor f j p d cmd received).1 ≡ []
  unfolding on_sensor
  on_sensor-effects p d cmd received = ground arith

  accept_time-IsSane :
      (p : Panel Float) (epoch : ℕ) (offset : ℤ)
      → IsSane p
      → IsSane (accept_time f j p epoch offset).0
  unfolding accept_time
  accept_time-IsSane p epoch offset v = ground arith

  -- The clock is only ever set to a time after November 2023.
  abbrev pub Plausible : List Effect → Type 0
  Plausible [] = Unit {0}
  Plausible (set_time e ∷ es) = (1_700_000_000 ≤ e) × Plausible es
  Plausible (x ∷ es) = Plausible es

  abbrev pub Good : Panel Float × List Effect → Type 0
  Good q = IsSane q.0 × Plausible q.1

  on_sensor-Good :
      (p : Panel Float) (d : Doc) (cmd : Bytes) (received : ℕ)
      → IsSane p
      → Good (on_sensor f j p d cmd received)
  on_sensor-Good p d cmd received v = (
    on_sensor-IsSane p d cmd received v,
    subst Plausible (sym (on_sensor-effects p d cmd received)) tt,
  )

  accept_time-Good :
      (p : Panel Float) (epoch : ℕ) (offset : ℤ) → IsSane p → Good (accept_time f j p epoch offset)
  unfolding accept_time
  accept_time-Good p epoch offset v = (accept_time-IsSane p epoch offset v, ground arith)

  dispatch-Good :
      (p : Panel Float) (d : Doc) (received : ℕ) → IsSane p → Good (dispatch f j p d received)
  unfolding dispatch
  dispatch-Good p d received v =
      let cmd = or_else (text d key_cmd) [] in
      let sensor = on_sensor-Good p d cmd received v in
      if_both Good (bytes_eq cmd cmd_time) _ _
        (option_both Good (ulong d key_epoch) _ _ sensor λ epoch.
          option_both Good (int d key_utc_offset_min) _ _ sensor
            λ offset. accept_time-Good p epoch offset v)
        sensor

  touch_frame : (p : Panel Float) (now : ℕ) → IsSane p → IsSane (record p { last_frame = now })
  touch_frame p now v = record {
    offset_low = v.offset_low;
    offset_high = v.offset_high;
    indoor_t = v.indoor_t;
    indoor_low = v.indoor_low;
    indoor_high = v.indoor_high;
    outdoor_t = v.outdoor_t;
    outdoor_low = v.outdoor_low;
    outdoor_high = v.outdoor_high;
  }

  on_payload-Good :
      (p : Panel Float) (a : Arrival) (payload : Bytes)
      → IsSane p
      → Good (on_payload f j p a payload)
  unfolding on_payload
  on_payload-Good p a payload v =
      let v' = touch_frame p a.now v in
      option_both Good (deserialize payload) _ _ (v', tt) λ d. dispatch-Good _ d a.received v'

  read_payload-Good :
      (p : Panel Float) (a : Arrival) (n : ℕ) → IsSane p → Good (read_payload f j p a n)
  unfolding read_payload
  read_payload-Good p a n v =
      if_both Good (leb 1024 n) _ _ (v, tt)
        (if_both Good (length (collect n a.polls) == n) _ _
          (on_payload-Good p a (collect n a.polls) v) (v, tt))

  on_length-Good :
      (p : Panel Float) (a : Arrival) (n : ℤ)
      → a.length ≡ n
      → IsSane p
      → Good (receive_frame f j p a)
  unfolding receive_frame
  on_length-Good p a (pos n) e v =
      rw (e, receive_frame) (if_both Good (n == 0) _ _ (v, tt) (read_payload-Good p a n v))
  on_length-Good p a (negsuc n) e v = rw (e, receive_frame) (v, tt)

  -- One frame, whatever its text, keeps what the screen may show sane, and sets the clock, if at all,
  -- to a plausible time.
  pub receive_frame-Good : (p : Panel Float) (a : Arrival) → IsSane p → Good (receive_frame f j p a)
  receive_frame-Good p a v = on_length-Good p a a.length refl v

  -- Any frames, whatever their lengths, texts and arrival, keep the panel sane: each reading that
  -- may be shown is finite, its humidity lies between 0 and 100, and the offset from UTC lies
  -- within 14 hours.
  pub run_frames-IsSane :
      (p : Panel Float) (as' : List Arrival) → IsSane p → IsSane (run_frames f j p as')
  unfolding run_frames
  run_frames-IsSane p [] v = v
  run_frames-IsSane p (a ∷ as') v =
      run_frames-IsSane (receive_frame f j p a).0 as' (receive_frame-Good p a v).0
