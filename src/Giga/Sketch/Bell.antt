-- ===== src/Giga/Sketch/Bell.antt =====
-- The steps of housepanel-giga.ino that leave the doorbell as it is: all but a DOORBELL command and the timer.
use house_panel.Base.{
  ℕ, zero, suc, ◌*◌, ◌+◌, ◌-◌, ◌≡◌, refl, ◌∙◌, Bool, true, false, not, ◌&&◌, ◌||◌, List, ltb, ◌==◌,
  Bytes, if_both, if_cases, [], arith,
}
use house_panel.Base.Int.{ℤ}
use house_panel.Base.Words.{elapsed}
use house_panel.Json.{Floats}
use house_panel.Command.{
  CommandType, CommandFrame, Payload, doorbell, ticker, weather, weather_day, cal_event, time_sync,
  sysmon,
}
use house_panel.Giga.Display.{Display}
use house_panel.Giga.Display.Draw.{
  render_weather_today, render_weather_day, display_update_status_detail,
}
use house_panel.Giga.Display.Service.{display_service-Keeps}
use house_panel.Giga.Sketch.{
  Sketch, Action, Pass, cal_text_size, calendar_line, append_line, start_list, add_event,
  handle_frame, dispatch,
}
use house_panel.Giga.Sketch.Loop.{
  is_shown, update_clock, update_status, indicators, retry, service_step,
}

-- The doorbell of the one state is that of the other.
pub record SameBell {F : Type 0} (s t : Sketch F) : Type 0 where
  pub state_is : t.display.state ≡ s.display.state
  pub start_is : t.doorbell_start_ms ≡ s.doorbell_start_ms
  pub timeout_is : t.doorbell_timeout_ms ≡ s.doorbell_timeout_ms

pub both-SameBell : {F : Type 0} (s t u : Sketch F) → SameBell s t → SameBell t u → SameBell s u
both-SameBell s t u a b = record {
  state_is = b.state_is ∙ a.state_is;
  start_is = b.start_is ∙ a.start_is;
  timeout_is = b.timeout_is ∙ a.timeout_is;
}

module _ {F : Type 0} where
  -- What holds of the state that a step returns.
  abbrev pub KeepsBell : Sketch F → Sketch F × List (Action F) → Type 0
  KeepsBell s q = SameBell s q.0

  pub same-SameBell : (s : Sketch F) → SameBell s s
  same-SameBell s = record { state_is = refl; start_is = refl; timeout_is = refl }

  append_line-SameBell : (s : Sketch F) (line : Bytes) → SameBell s (append_line s line)
  unfolding append_line
  append_line-SameBell s line =
      if_both (SameBell s) (ltb s.cal_text_len (cal_text_size - 1)) _ _
        (record { state_is = refl; start_is = refl; timeout_is = refl }) (same-SameBell s)

  start_list-SameBell : (s : Sketch F) (idx : ℤ) → SameBell s (start_list s idx)
  unfolding start_list
  start_list-SameBell s (ℤ.pos zero) = record {
    state_is = refl;
    start_is = refl;
    timeout_is = refl;
  }
  start_list-SameBell s (ℤ.pos (suc n)) = same-SameBell s
  start_list-SameBell s (ℤ.negsuc n) = same-SameBell s

-- Whether `dispatch` takes a frame for a DOORBELL: the types that it skips are none.
abbrev pub is_doorbell : {F : Type 0} → Payload F → Bool
is_doorbell (doorbell n) = true
is_doorbell _ = false

abbrev pub rings : {F : Type 0} → CommandFrame F → Bool
rings frame = elim frame.type [
  | CommandType.type_ota_pause ↦ false
  | CommandType.type_ota_resume ↦ false
  | CommandType.type_unknown ↦ false
  | _ ↦ is_doorbell frame.payload
]

module _ (f : Floats) where
  open f use {Float}

  day-state :
      (d : Display Float) (idx : ℤ) (label : Bytes) (high low : Float) (conditions : Bytes)
      → (render_weather_day f d idx label high low conditions).0.state ≡ d.state
  unfolding render_weather_day
  day-state d (ℤ.negsuc n) label high low conditions = refl
  day-state d (ℤ.pos n) label high low conditions =
      if_both (λ (q : Display Float × _). q.0.state ≡ d.state) (ltb 1 n) _ _ refl
        (if_both (λ (e : Display Float). e.state ≡ d.state) (n == 0) _ _ refl refl)

  add_event-SameBell :
      (s : Sketch Float) (idx : ℤ) (summary time : Bytes) (all_day : Bool)
      → SameBell s (add_event s idx summary time all_day)
  unfolding add_event
  add_event-SameBell s idx summary time all_day =
      both-SameBell s _ _ (start_list-SameBell s idx)
        (append_line-SameBell (start_list s idx) (calendar_line summary time all_day))

  payload-KeepsBell :
      (p : Payload Float) (s : Sketch Float) (frame : CommandFrame Float) (at : ℕ)
      → is_doorbell p ≡ false
      → KeepsBell s (handle_frame f s (record frame { payload = p }) at)
  unfolding handle_frame render_weather_today
  payload-KeepsBell (doorbell n) s frame at h = cc
  payload-KeepsBell (ticker text) s frame at h = same-SameBell s
  payload-KeepsBell (weather temp conditions high low) s frame at h = record {
    state_is = refl;
    start_is = refl;
    timeout_is = refl;
  }
  payload-KeepsBell (weather_day idx label high low conditions) s frame at h = record {
    state_is = day-state s.display idx label high low conditions;
    start_is = refl;
    timeout_is = refl;
  }
  payload-KeepsBell (cal_event idx summary time all_day) s frame at h =
      let e = add_event-SameBell s idx summary time all_day in
      record { state_is = e.state_is; start_is = e.start_is; timeout_is = e.timeout_is }
  payload-KeepsBell (time_sync epoch offset) s frame at h =
      if_both (KeepsBell s) (epoch == 0) _ _ (same-SameBell s)
        (record { state_is = refl; start_is = refl; timeout_is = refl })
  payload-KeepsBell (sysmon temp humidity) s frame at h = record {
    state_is = refl;
    start_is = refl;
    timeout_is = refl;
  }

  typed-KeepsBell :
      (t : CommandType) (s : Sketch Float) (frame : CommandFrame Float) (at : ℕ)
      → rings (record frame { type = t }) ≡ false
      → KeepsBell s (elim t [
        | CommandType.type_ota_pause ↦ (s, [])
        | CommandType.type_ota_resume ↦ (s, [])
        | CommandType.type_unknown ↦ (s, [])
        | _ ↦ handle_frame f s frame at
      ])
  typed-KeepsBell CommandType.type_ota_pause s frame at h = same-SameBell s
  typed-KeepsBell CommandType.type_ota_resume s frame at h = same-SameBell s
  typed-KeepsBell CommandType.type_unknown s frame at h = same-SameBell s
  typed-KeepsBell _ s frame at h = payload-KeepsBell frame.payload s frame at h

  pub dispatch-KeepsBell :
      (s : Sketch Float) (at : ℕ)
      → (s.frame_ready && rings s.last_frame) ≡ false
      → KeepsBell s (dispatch f s at)
  unfolding dispatch
  dispatch-KeepsBell s at h =
      let s' : Sketch Float = record s { frame_ready = false } in
      if_cases (KeepsBell s) (not s.frame_ready) _ _ (λ e. same-SameBell s)
        (λ e.
          let b = typed-KeepsBell s.last_frame.type s' s.last_frame at (ground (arith, h, e)) in
          record { state_is = b.state_is; start_is = b.start_is; timeout_is = b.timeout_is })

  pub update_clock-KeepsBell : (s : Sketch Float) (i : Pass) → KeepsBell s (update_clock f s i)
  unfolding update_clock
  update_clock-KeepsBell s i = if_both (KeepsBell s) (not s.rtc_synced) _ _ (same-SameBell s) (
      if_both (KeepsBell s)
        (is_shown s.last_clock ((i.local s.utc_offset_min).0 * 100 + (i.local s.utc_offset_min).1))
        _ _ (same-SameBell s) (record { state_is = refl; start_is = refl; timeout_is = refl }))

  pub indicators-KeepsBell : (s : Sketch Float) (i : Pass) → KeepsBell s (indicators f s i)
  unfolding indicators update_status display_update_status_detail
  indicators-KeepsBell s i =
      let c = update_clock-KeepsBell (update_status f s i).0 i in
      if_both (KeepsBell s) (ltb (elapsed i.indicator_now s.last_indicator_ms) 1000) _ _
        (same-SameBell s)
        (record { state_is = c.state_is; start_is = c.start_is; timeout_is = c.timeout_is })

  pub service_step-KeepsBell : (s : Sketch Float) (i : Pass) → KeepsBell s (service_step f s i)
  unfolding service_step
  service_step-KeepsBell s i = record {
    state_is = (display_service-Keeps f i.callbacks s.display).state_is;
    start_is = refl;
    timeout_is = refl;
  }

  -- The retry keeps the frame that is there, too.
  pub record Retried (s t : Sketch Float) : Type 0 where
    pub bell : SameBell s t
    pub ready_is : t.frame_ready ≡ s.frame_ready
    pub frame_is : t.last_frame ≡ s.last_frame

  pub retry-Retried : (s : Sketch Float) (i : Pass) → Retried s (retry f s i).0
  unfolding retry
  retry-Retried s i =
      let same : (t : Sketch Float)
          → SameBell s t
          → t.frame_ready ≡ s.frame_ready
          → t.last_frame ≡ s.last_frame
          → Retried s t =
        λ t a b c. record { bell = a; ready_is = b; frame_is = c } in
      if_both (λ (q : Sketch Float × List (Action Float)). Retried s q.0)
        (i.retry_connected || ltb (elapsed i.retry_now s.last_ws_attempt_ms) 5000) _ _
        (same s (same-SameBell s) refl refl)
        (if_both (λ (q : Sketch Float × List (Action Float)). Retried s q.0) i.connects _ _
          (same _ (record { state_is = refl; start_is = refl; timeout_is = refl }) refl refl)
          (same _ (record { state_is = refl; start_is = refl; timeout_is = refl }) refl refl))
