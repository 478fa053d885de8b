-- ===== src/Giga/Sketch/Label.antt =====
-- The steps of `loop` of housepanel-giga.ino and the label of today's temperature.
use mathlib.Core.Path.{subst}
use house_panel.Base.{
  ℕ, zero, suc, ◌+◌, ◌*◌, ◌≡◌, refl, ◌∙◌, ap, sym, Bool, false, not, ◌&&◌, Option, List, [], ◌++◌,
  arith, ltb, leb, ◌==◌, Bytes, if_both,
}
use house_panel.Base.Int.{ℤ}
use house_panel.Base.Words.{elapsed}
use house_panel.Json.{Floats}
use house_panel.Command.{
  CommandFrame, Payload, doorbell, ticker, weather, weather_day, cal_event, time_sync, sysmon,
}
use house_panel.Giga.Display.{Display, Drawing}
use house_panel.Giga.Display.Draw.{
  render_today, render_forecast, render_weather_today, render_weather_day,
  render_doorbell_interrupt, dismiss_doorbell, refresh_popup_content, display_update_status_detail,
  display_update_indicators,
}
use house_panel.Giga.Sketch.Cases.{type_both, state_both}
use house_panel.Giga.Sketch.Unit.{
  last_drawn, last_shown, last_shown-append, last_shown-draws, Follows, today-Follows,
  forecast-last, other-Follows,
}
use house_panel.Giga.Sketch.{
  Sketch, Action, Pass, append_line, start_list, add_event, handle_frame, dispatch,
}
use house_panel.Giga.Sketch.Loop.{doorbell_timer, is_shown, update_clock, update_status, indicators}

module _ (f : Floats) where
  open f use {Float}

  -- A step from `s` keeps the label with the temperature.
  pub record KeepsLabel (s : Sketch Float) (q : Sketch Float × List (Action Float)) : Type 0 where
    pub follows :
        (o : Option (Float × Bytes))
        → Follows f s.display o
        → Follows f q.0.display (last_shown o q.1)

  pub same-KeepsLabel : (s : Sketch Float) → KeepsLabel s (s, [])
  unfolding last_shown
  same-KeepsLabel s = record { follows = λ o h. h }

  pub both-KeepsLabel :
      (s t u : Sketch Float) (es fs : List (Action Float))
      → KeepsLabel s (t, es)
      → KeepsLabel t (u, fs)
      → KeepsLabel s (u, es ++ fs)
  both-KeepsLabel s t u es fs a b = record {
    follows = λ o h.
        subst (Follows f u.display) (sym (last_shown-append es fs o))
          (b.follows (last_shown o es) (a.follows o h));
  }

  -- Neither the temperature and the unit nor the label change.
  pub quiet-KeepsLabel :
      (s t : Sketch Float) (es : List (Action Float))
      → t.display.today ≡ s.display.today
      → t.display.show_fahrenheit ≡ s.display.show_fahrenheit
      → ((o : Option (Float × Bytes)) → last_shown o es ≡ o)
      → KeepsLabel s (t, es)
  quiet-KeepsLabel s t es a b c = record {
    follows = λ o h.
        subst (Follows f t.display) (sym (c o)) (other-Follows f s.display t.display o a b h);
  }

  add_event-display :
      (s : Sketch Float) (idx : ℤ) (summary time : Bytes) (all_day : Bool)
      → (add_event s idx summary time all_day).display ≡ s.display
  unfolding add_event append_line start_list
  add_event-display s (ℤ.pos zero) summary time all_day = ground arith
  add_event-display s (ℤ.pos (suc n)) summary time all_day = ground arith
  add_event-display s (ℤ.negsuc n) summary time all_day = ground arith

  -- A drawing step with neither the temperature, nor the unit, nor the label.
  record SameLabel (d : Display Float) (q : Display Float × List (Drawing Float)) : Type 0 where
    today_is : q.0.today ≡ d.today
    unit_is : q.0.show_fahrenheit ≡ d.show_fahrenheit
    label_is : (o : Option (Float × Bytes)) → last_drawn o q.1 ≡ o

  forecast-SameLabel :
      (d e : Display Float) (c : ℕ)
      → e.today ≡ d.today
      → e.show_fahrenheit ≡ d.show_fahrenheit
      → SameLabel d (e, render_forecast f e c)
  forecast-SameLabel d e c t u = record {
    today_is = t;
    unit_is = u;
    label_is = forecast-last f e c;
  }

  day-SameLabel :
      (d : Display Float) (idx : ℤ) (label : Bytes) (high low : Float) (conditions : Bytes)
      → SameLabel d (render_weather_day f d idx label high low conditions)
  unfolding render_weather_day last_drawn
  day-SameLabel d (ℤ.negsuc n) label high low conditions = record {
    today_is = refl;
    unit_is = refl;
    label_is = λ o. refl;
  }
  day-SameLabel d (ℤ.pos n) label high low conditions =
      if_both (SameLabel d) (ltb 1 n) _ _
        (record { today_is = refl; unit_is = refl; label_is = λ o. refl })
        (forecast-SameLabel d _ (n + 1)
          (if_both (λ (e : Display Float). e.today ≡ d.today) (n == 0) _ _ refl refl)
          (if_both (λ (e : Display Float). e.show_fahrenheit ≡ d.show_fahrenheit) (n == 0) _ _ refl
            refl))

  payload-KeepsLabel :
      (p : Payload Float) (s : Sketch Float) (frame : CommandFrame Float) (at : ℕ)
      → KeepsLabel s (handle_frame f s (record frame { payload = p }) at)
  unfolding handle_frame last_shown render_doorbell_interrupt render_weather_today
  payload-KeepsLabel (doorbell n) s frame at = quiet-KeepsLabel s _ _ refl refl (λ o. refl)
  payload-KeepsLabel (ticker text) s frame at = same-KeepsLabel s
  payload-KeepsLabel (weather temp conditions high low) s frame at = record {
    follows = λ o h.
        let d = (render_weather_today f s.display temp conditions high low).0 in
        subst (Follows f d) (sym (last_shown-draws (render_today f d) o)) (today-Follows f d o);
  }
  payload-KeepsLabel (weather_day idx label high low conditions) s frame at =
      let q = render_weather_day f s.display idx label high low conditions in
      let e = day-SameLabel s.display idx label high low conditions in
      quiet-KeepsLabel s _ _ e.today_is e.unit_is (λ o. last_shown-draws q.1 o ∙ e.label_is o)
  payload-KeepsLabel (cal_event idx summary time all_day) s frame at =
      let e = add_event-display s idx summary time all_day in
      quiet-KeepsLabel s _ _ (ap (λ (d : Display Float). d.today) e)
        (ap (λ (d : Display Float). d.show_fahrenheit) e) (λ o. refl)
  payload-KeepsLabel (time_sync epoch offset) s frame at =
      if_both (KeepsLabel s) (epoch == 0) _ _ (same-KeepsLabel s)
        (quiet-KeepsLabel s _ _ refl refl (λ o. refl))
  payload-KeepsLabel (sysmon temp humidity) s frame at =
      quiet-KeepsLabel s _ _ refl refl (λ o. refl)

  pub dispatch-KeepsLabel : (s : Sketch Float) (at : ℕ) → KeepsLabel s (dispatch f s at)
  unfolding dispatch last_shown
  dispatch-KeepsLabel s at =
      let s' : Sketch Float = record s { frame_ready = false } in
      let q = payload-KeepsLabel s.last_frame.payload s' s.last_frame at in
      if_both (KeepsLabel s) (not s.frame_ready) _ _ (same-KeepsLabel s) (
        type_both (KeepsLabel s) s.last_frame.type _ _
          (quiet-KeepsLabel s _ _ refl refl (λ o. refl)) (record { follows = q.follows }))

  pub doorbell_timer-KeepsLabel :
      (s : Sketch Float) (now : ℕ) → KeepsLabel s (doorbell_timer f s now)
  unfolding doorbell_timer dismiss_doorbell last_shown
  doorbell_timer-KeepsLabel s now =
      state_both (KeepsLabel s) s.display.state _ _ (same-KeepsLabel s) (
        if_both (KeepsLabel s)
          (not (s.doorbell_timeout_ms == 0)
            && leb s.doorbell_timeout_ms (elapsed now s.doorbell_start_ms))
          _ _ (quiet-KeepsLabel s _ _ refl refl (λ o. refl)) (same-KeepsLabel s))

  update_clock-KeepsLabel : (s : Sketch Float) (i : Pass) → KeepsLabel s (update_clock f s i)
  unfolding update_clock last_shown
  update_clock-KeepsLabel s i = if_both (KeepsLabel s) (not s.rtc_synced) _ _ (same-KeepsLabel s) (
      if_both (KeepsLabel s)
        (is_shown s.last_clock ((i.local s.utc_offset_min).0 * 100 + (i.local s.utc_offset_min).1))
        _ _ (same-KeepsLabel s) (quiet-KeepsLabel s _ _ refl refl (λ o. refl)))

  update_status-KeepsLabel : (s : Sketch Float) (i : Pass) → KeepsLabel s (update_status f s i)
  unfolding update_status display_update_status_detail display_update_indicators
      refresh_popup_content last_shown
  update_status-KeepsLabel s i = quiet-KeepsLabel s _ _ refl refl (λ o. ground arith)

  pub indicators-KeepsLabel : (s : Sketch Float) (i : Pass) → KeepsLabel s (indicators f s i)
  unfolding indicators
  indicators-KeepsLabel s i =
      let a = update_status f s i in
      let b = update_clock f a.0 i in
      if_both (KeepsLabel s) (ltb (elapsed i.indicator_now s.last_indicator_ms) 1000) _ _
        (same-KeepsLabel s)
        (both-KeepsLabel s a.0 b.0 a.1 b.1 (update_status-KeepsLabel s i)
          (update_clock-KeepsLabel a.0 i))
