-- ===== src/Giga/Sketch/Quiet.antt =====
-- The steps of housepanel-giga.ino after the retry, which do not connect the socket.
use house_panel.Base.{
  ℕ, zero, suc, ◌+◌, ◌*◌, ◌≡◌, refl, ◌∙◌, Bool, true, false, not, ◌&&◌, ◌||◌, List, [], ◌∷◌, ◌++◌,
  arith, ltb, leb, ◌==◌, Bytes, if_both, option_both,
}
use house_panel.Base.Int.{ℤ}
use house_panel.Base.Words.{elapsed}
use house_panel.Json.{Floats}
use house_panel.Command.{
  CommandFrame, Payload, doorbell, ticker, weather, weather_day, cal_event, time_sync, sysmon,
}
use house_panel.Giga.Display.{Drawing}
use house_panel.Giga.Display.Draw.{
  render_calendar_section, display_update_sysmon, display_update_clock,
}
use house_panel.Giga.Display.Service.{display_service}
use house_panel.Giga.Socket.{ws_send_memory}
use house_panel.Giga.Sketch.Cases.{type_both, state_both}
use house_panel.Giga.Sketch.{
  Sketch, Action, Pass, draws, connect_socket, send_memory, append_line, start_list, add_event,
  handle_frame, dispatch,
}
use house_panel.Giga.Sketch.Loop.{
  doorbell_timer, is_shown, update_clock, update_status, indicators, send_memory_step, service_step,
}

module _ {F : Type 0} where
  is_connect : Action F → Bool
  is_connect connect_socket = true
  is_connect _ = false

  -- The socket is connected, or tried to be.
  unfoldable pub connects_socket : List (Action F) → Bool
  unfolding is_connect
  connects_socket [] = false
  connects_socket (e ∷ es) = is_connect e || connects_socket es

  pub connects-append :
      (es fs : List (Action F))
      → connects_socket (es ++ fs) ≡ (connects_socket es || connects_socket fs)
  unfolding connects_socket
  connects-append [] fs = refl
  connects-append (e ∷ es) fs = ground (arith, connects-append es fs)

  connects-draws : (ds : List (Drawing F)) → connects_socket (draws ds) ≡ false
  unfolding connects_socket
  connects-draws [] = refl
  connects-draws (d ∷ ds) = connects-draws ds

  -- A step that neither connects nor changes when it last did.
  pub record Quiet (s : Sketch F) (q : Sketch F × List (Action F)) : Type 0 where
    pub silent : connects_socket q.1 ≡ false
    pub last_is : q.0.last_ws_attempt_ms ≡ s.last_ws_attempt_ms

  pub same-Quiet : (s : Sketch F) → Quiet s (s, [])
  unfolding connects_socket
  same-Quiet s = record { silent = refl; last_is = refl }

  drawn-Quiet :
      (s t : Sketch F) (ds : List (Drawing F))
      → t.last_ws_attempt_ms ≡ s.last_ws_attempt_ms
      → Quiet s (t, draws ds)
  drawn-Quiet s t ds h = record { silent = connects-draws ds; last_is = h }

  pub both-Quiet :
      (s t u : Sketch F) (es fs : List (Action F))
      → Quiet s (t, es)
      → Quiet t (u, fs)
      → Quiet s (u, es ++ fs)
  both-Quiet s t u es fs a b = record {
    silent = connects-append es fs ∙ cc (a.silent, b.silent);
    last_is = b.last_is ∙ a.last_is;
  }

  add_event-last :
      (s : Sketch F) (idx : ℤ) (summary time : Bytes) (all_day : Bool)
      → (add_event s idx summary time all_day).last_ws_attempt_ms ≡ s.last_ws_attempt_ms
  unfolding add_event append_line start_list
  add_event-last s (ℤ.pos zero) summary time all_day = ground arith
  add_event-last s (ℤ.pos (suc n)) summary time all_day = ground arith
  add_event-last s (ℤ.negsuc n) summary time all_day = ground arith

module _ (f : Floats) where
  open f use {Float}

  payload-Quiet :
      (p : Payload Float) (s : Sketch Float) (frame : CommandFrame Float) (at : ℕ)
      → Quiet s (handle_frame f s (record frame { payload = p }) at)
  unfolding handle_frame connects_socket
  payload-Quiet (doorbell n) s frame at = drawn-Quiet s _ _ refl
  payload-Quiet (ticker text) s frame at = same-Quiet s
  payload-Quiet (weather temp conditions high low) s frame at = drawn-Quiet s _ _ refl
  payload-Quiet (weather_day idx label high low conditions) s frame at = drawn-Quiet s _ _ refl
  payload-Quiet (cal_event idx summary time all_day) s frame at =
      drawn-Quiet s _ (render_calendar_section f (add_event s idx summary time all_day).cal_text)
        (add_event-last s idx summary time all_day)
  payload-Quiet (time_sync epoch offset) s frame at =
      if_both (Quiet s) (epoch == 0) _ _ (same-Quiet s) (record { silent = refl; last_is = refl })
  payload-Quiet (sysmon temp humidity) s frame at =
      drawn-Quiet s _ (display_update_sysmon f temp humidity) refl

  pub dispatch-Quiet : (s : Sketch Float) (at : ℕ) → Quiet s (dispatch f s at)
  unfolding dispatch connects_socket
  dispatch-Quiet s at =
      let s' : Sketch Float = record s { frame_ready = false } in
      let q = payload-Quiet s.last_frame.payload s' s.last_frame at in
      if_both (Quiet s) (not s.frame_ready) _ _ (same-Quiet s) (
        type_both (Quiet s) s.last_frame.type _ _ (record { silent = refl; last_is = refl })
          (record { silent = q.silent; last_is = q.last_is }))

  pub doorbell_timer-Quiet : (s : Sketch Float) (now : ℕ) → Quiet s (doorbell_timer f s now)
  unfolding doorbell_timer
  doorbell_timer-Quiet s now = state_both (Quiet s) s.display.state _ _ (same-Quiet s) (
      if_both (Quiet s)
        (not (s.doorbell_timeout_ms == 0)
          && leb s.doorbell_timeout_ms (elapsed now s.doorbell_start_ms))
        _ _ (drawn-Quiet s _ _ refl) (same-Quiet s))

  update_clock-Quiet : (s : Sketch Float) (i : Pass) → Quiet s (update_clock f s i)
  unfolding update_clock
  update_clock-Quiet s i = if_both (Quiet s) (not s.rtc_synced) _ _ (same-Quiet s) (
      if_both (Quiet s)
        (is_shown s.last_clock ((i.local s.utc_offset_min).0 * 100 + (i.local s.utc_offset_min).1))
        _ _ (same-Quiet s)
        (drawn-Quiet s _
          (display_update_clock f (i.local s.utc_offset_min).0 (i.local s.utc_offset_min).1) refl))

  update_status-Quiet : (s : Sketch Float) (i : Pass) → Quiet s (update_status f s i)
  unfolding update_status
  update_status-Quiet s i = drawn-Quiet s _ _ refl

  pub indicators-Quiet : (s : Sketch Float) (i : Pass) → Quiet s (indicators f s i)
  unfolding indicators
  indicators-Quiet s i =
      let a = update_status f s i in
      let b = update_clock f a.0 i in
      if_both (Quiet s) (ltb (elapsed i.indicator_now s.last_indicator_ms) 1000) _ _ (same-Quiet s)
        (both-Quiet s a.0 b.0 a.1 b.1 (update_status-Quiet s i) (update_clock-Quiet a.0 i))

  pub send_memory_step-Quiet : (s : Sketch Float) (i : Pass) → Quiet s (send_memory_step f s i)
  unfolding send_memory_step connects_socket
  send_memory_step-Quiet s i = record {
    silent =
        option_both (λ (es : List (Action Float)). connects_socket es ≡ false)
          (ws_send_memory s.memory i.memory_connected i.memory_now i.collected).1 []
          (λ text. send_memory text ∷ []) refl (λ text. refl);
    last_is = refl;
  }

  pub service_step-Quiet : (s : Sketch Float) (i : Pass) → Quiet s (service_step f s i)
  unfolding service_step connects_socket
  service_step-Quiet s i = record {
    silent = connects-draws (display_service f s.display i.callbacks).1;
    last_is = refl;
  }
