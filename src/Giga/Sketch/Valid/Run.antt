-- ===== src/Giga/Sketch/Valid/Run.antt =====
-- The texts of housepanel-giga.ino and display.cpp over `setup` and the passes of `loop`.
use house_panel.Base.{
  ℕ, ◌*◌, ◌+◌, Bool, false, not, ◌&&◌, ◌||◌, List, [], ◌∷◌, arith, ltb, leb, ◌==◌, if_both, ◌^◌,
  ◌%◌,
}
use house_panel.Base.Words.{elapsed}
use house_panel.Json.{Floats, Json}
use house_panel.Command.{CommandFrame}
use house_panel.Giga.Display.{DisplayState, new_display}
use house_panel.Giga.Display.Draw.{dismiss_doorbell, display_update_status_detail}
use house_panel.Giga.Display.Service.{display_service, display_service-Keeps}
use house_panel.Giga.Socket.{ws_loop, ws_send_memory}
use house_panel.Giga.Sketch.Cases.{type_both, state_both}
use house_panel.Giga.Sketch.{Sketch, Pass, dispatch}
use house_panel.Giga.Sketch.Loop.{
  doorbell_timer, is_shown, update_clock, update_status, indicators, retry, send_memory_step,
  service_step, listen, loop, run_loop, new_sketch, setup,
}
use house_panel.Giga.Sketch.Valid.{
  IsValid, shown_again, kept_again, copy_text-length, Leaves, payload-IsValid,
}

module _ (f : Floats) where
  open f use {Float}

  dispatch-IsValid : (s : Sketch Float) (at : ℕ) → IsValid s → Leaves f (dispatch f s at)
  unfolding dispatch
  dispatch-IsValid s at v =
      let w : IsValid (record s { frame_ready = false }) = record {
        text_fits = v.text_fits;
        text_counted = v.text_counted;
        texts = v.texts;
      } in
      if_both (Leaves f) (not s.frame_ready) _ _ v (
        type_both (Leaves f) s.last_frame.type _ _ w (
          payload-IsValid f s.last_frame.payload (record s { frame_ready = false })
            s.last_frame.type at w))

  doorbell_timer-IsValid :
      (s : Sketch Float) (now : ℕ) → IsValid s → Leaves f (doorbell_timer f s now)
  unfolding doorbell_timer dismiss_doorbell
  doorbell_timer-IsValid s now v = state_both (Leaves f) s.display.state _ _ v (
      if_both (Leaves f)
        (not (s.doorbell_timeout_ms == 0)
          && leb s.doorbell_timeout_ms (elapsed now s.doorbell_start_ms))
        _ _
        (record {
          text_fits = v.text_fits;
          text_counted = v.text_counted;
          texts = shown_again s.display s.display.popup_hidden DisplayState.daily_view v.texts;
        })
        v)

  update_clock-IsValid : (s : Sketch Float) (i : Pass) → IsValid s → Leaves f (update_clock f s i)
  unfolding update_clock
  update_clock-IsValid s i v = if_both (Leaves f) (not s.rtc_synced) _ _ v (
      if_both (Leaves f)
        (is_shown s.last_clock ((i.local s.utc_offset_min).0 * 100 + (i.local s.utc_offset_min).1))
        _ _ v (record { text_fits = v.text_fits; text_counted = v.text_counted; texts = v.texts }))

  update_status-IsValid : (s : Sketch Float) (i : Pass) → IsValid s → Leaves f (update_status f s i)
  unfolding update_status display_update_status_detail
  update_status-IsValid s i v =
      let t = v.texts in
      record {
        text_fits = v.text_fits;
        text_counted = v.text_counted;
        texts = record {
          today_fits = t.today_fits;
          first_label = t.first_label;
          first_conditions = t.first_conditions;
          second_label = t.second_label;
          second_conditions = t.second_conditions;
          ip_fits = copy_text-length 20 i.ip (omega arith);
        };
      }

  indicators-IsValid : (s : Sketch Float) (i : Pass) → IsValid s → Leaves f (indicators f s i)
  unfolding indicators
  indicators-IsValid s i v =
      let w = update_clock-IsValid (update_status f s i).0 i (update_status-IsValid s i v) in
      if_both (Leaves f) (ltb (elapsed i.indicator_now s.last_indicator_ms) 1000) _ _ v
        (record { text_fits = w.text_fits; text_counted = w.text_counted; texts = w.texts })

  retry-IsValid : (s : Sketch Float) (i : Pass) → IsValid s → Leaves f (retry f s i)
  unfolding retry
  retry-IsValid s i v =
      if_both (Leaves f) (i.retry_connected || ltb (elapsed i.retry_now s.last_ws_attempt_ms) 5000)
        _ _ v
        (if_both (Leaves f) i.connects _ _
          (record { text_fits = v.text_fits; text_counted = v.text_counted; texts = v.texts })
          (record { text_fits = v.text_fits; text_counted = v.text_counted; texts = v.texts }))

  module _ (j : Json f) (blank : CommandFrame Float) where
    listen-IsValid : (s : Sketch Float) (i : Pass) → IsValid s → Leaves f (listen f j blank s i)
    unfolding listen send_memory_step service_step
    listen-IsValid s i v =
        let w = ws_loop f j s.frame_ready s.last_frame blank i.message in
        let s₁ : Sketch Float = record s {
          frame_ready = w.0;
          last_frame = w.1;
          memory = (ws_send_memory s.memory i.memory_connected i.memory_now i.collected).0;
        } in
        let v₁ : IsValid s₁ = record {
          text_fits = v.text_fits;
          text_counted = v.text_counted;
          texts = v.texts;
        } in
        let v₂ = dispatch-IsValid s₁ i.frame_at v₁ in
        let v₃ = doorbell_timer-IsValid (dispatch f s₁ i.frame_at).0 i.doorbell_now v₂ in
        let v₄ =
          indicators-IsValid (doorbell_timer f (dispatch f s₁ i.frame_at).0 i.doorbell_now).0 i
            v₃ in
        let s₄ =
          (indicators f (doorbell_timer f (dispatch f s₁ i.frame_at).0 i.doorbell_now).0 i).0 in
        record {
          text_fits = v₄.text_fits;
          text_counted = v₄.text_counted;
          texts =
              kept_again s₄.display (display_service f s₄.display i.callbacks).0
                (display_service-Keeps f i.callbacks s₄.display) v₄.texts;
        }

    loop-IsValid : (s : Sketch Float) (i : Pass) → IsValid s → Leaves f (loop f j blank s i)
    unfolding loop
    loop-IsValid s i v =
        let w : IsValid (record s { loop_count = (s.loop_count + 1) % 2 ^ 32 }) = record {
          text_fits = v.text_fits;
          text_counted = v.text_counted;
          texts = v.texts;
        } in
        let u =
          listen-IsValid _ i
            (retry-IsValid (record s { loop_count = (s.loop_count + 1) % 2 ^ 32 }) i w) in
        record { text_fits = u.text_fits; text_counted = u.text_counted; texts = u.texts }

    run_loop-IsValid :
        (passes : List Pass) (s : Sketch Float) → IsValid s → IsValid (run_loop f j blank s passes)
    unfolding run_loop
    run_loop-IsValid [] s v = v
    run_loop-IsValid (i ∷ passes) s v =
        run_loop-IsValid passes (loop f j blank s i).0 (loop-IsValid s i v)

    setup-IsValid :
        (s : Sketch Float) (connects : Bool) (hello_at attempt_at : ℕ)
        → IsValid s
        → Leaves f (setup f s connects hello_at attempt_at)
    unfolding setup
    setup-IsValid s connects hello_at attempt_at v =
        if_both (Leaves f) connects _ _
          (record { text_fits = v.text_fits; text_counted = v.text_counted; texts = v.texts })
          (record { text_fits = v.text_fits; text_counted = v.text_counted; texts = v.texts })

    -- After `setup` and any passes, whatever the server sends, the calendar's text, the
    -- conditions, the labels of the days and the address are shorter than the arrays of 512, 32 and 26, 4
    -- and 20 bytes that hold them, and the length that the calendar counts is not before its text's end.
    pub run_loop-setup-IsValid :
        (frame : CommandFrame Float) (connects : Bool) (hello_at attempt_at : ℕ)
        (passes : List Pass)
        → IsValid (
            run_loop f j blank (setup f (new_sketch f frame) connects hello_at attempt_at).0 passes)
    unfolding new_sketch new_display
    run_loop-setup-IsValid frame connects hello_at attempt_at passes =
        run_loop-IsValid passes (setup f (new_sketch f frame) connects hello_at attempt_at).0 (
          setup-IsValid (new_sketch f frame) connects hello_at attempt_at (record {
            text_fits = omega arith;
            text_counted = omega arith;
            texts = record {
              today_fits = omega arith;
              first_label = omega arith;
              first_conditions = omega arith;
              second_label = omega arith;
              second_conditions = omega arith;
              ip_fits = omega arith;
            };
          }))
