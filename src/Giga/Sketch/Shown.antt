-- ===== src/Giga/Sketch/Shown.antt =====
-- Today's temperature on the screen, over `setup` and the passes of `loop` of housepanel-giga.ino.
use mathlib.Core.Path.{subst}
use house_panel.Base.{
  ℕ, ◌+◌, ◌%◌, ◌^◌, ◌≡◌, refl, sym, Bool, true, not, ◌&&◌, ◌||◌, Option, none, some, List, [], ◌∷◌,
  ◌++◌, ltb, ◌==◌, Bytes, if_both, if◌then◌else◌, option_both,
}
use house_panel.Base.Words.{elapsed}
use house_panel.Json.{Floats, Json}
use house_panel.Command.{CommandFrame}
use house_panel.Giga.Display.{new_display}
use house_panel.Giga.Display.Service.{display_service}
use house_panel.Giga.Socket.{ws_loop, ws_send_memory}
use house_panel.Giga.Sketch.Label.{
  KeepsLabel, same-KeepsLabel, both-KeepsLabel, quiet-KeepsLabel, dispatch-KeepsLabel,
  doorbell_timer-KeepsLabel, indicators-KeepsLabel,
}
use house_panel.Giga.Sketch.Unit.{
  last_shown, last_shown-draws, in_unit, Follows, display_service-Follows,
}
use house_panel.Giga.Sketch.{
  Sketch, Action, Pass, data_stale_timeout_ms, connect_wifi, run_updates, send_memory, dispatch,
}
use house_panel.Giga.Sketch.Loop.{
  doorbell_timer, indicators, check_stale, retry, send_memory_step, service_step, listen, loop,
  new_sketch, setup,
}

module _ (f : Floats) where
  open f use {Float}

  retry-KeepsLabel : (s : Sketch Float) (i : Pass) → KeepsLabel f s (retry f s i)
  unfolding retry last_shown
  retry-KeepsLabel s i =
      if_both (KeepsLabel f s)
        (i.retry_connected || ltb (elapsed i.retry_now s.last_ws_attempt_ms) 5000) _ _
        (same-KeepsLabel f s)
        (if_both (KeepsLabel f s) i.connects _ _ (quiet-KeepsLabel f s _ _ refl refl (λ o. refl))
          (quiet-KeepsLabel f s _ _ refl refl (λ o. refl)))

  send_memory_step-KeepsLabel :
      (s : Sketch Float) (i : Pass) → KeepsLabel f s (send_memory_step f s i)
  unfolding send_memory_step last_shown
  send_memory_step-KeepsLabel s i = quiet-KeepsLabel f s _ _ refl refl (λ o.
      option_both (λ (es : List (Action Float)). last_shown o es ≡ o)
        (ws_send_memory s.memory i.memory_connected i.memory_now i.collected).1 []
        (λ text. send_memory text ∷ []) refl (λ text. refl))

  service_step-KeepsLabel : (s : Sketch Float) (i : Pass) → KeepsLabel f s (service_step f s i)
  unfolding service_step last_shown
  service_step-KeepsLabel s i = record {
    follows = λ o h.
        let q = display_service f s.display i.callbacks in
        subst (Follows f q.0) (sym (last_shown-draws q.1 o))
          (display_service-Follows f i.callbacks s.display o h);
  }

  wifi-silent :
      (connected : Bool) (o : Option (Float × Bytes))
      → last_shown o (if connected then [] else connect_wifi ∷ []) ≡ o
  unfolding last_shown
  wifi-silent connected o =
      if_both (λ (es : List (Action Float)). last_shown o es ≡ o) connected _ _ refl refl

  check_stale-silent :
      (s : Sketch Float) (i : Pass) (o : Option (Float × Bytes))
      → last_shown o (check_stale f s i) ≡ o
  unfolding check_stale last_shown
  check_stale-silent s i o =
      if_both (λ (es : List (Action Float)). last_shown o es ≡ o)
        (i.stale_connected
          && not (s.last_data_rx_ms == 0)
          && ltb data_stale_timeout_ms (elapsed i.stale_now s.last_data_rx_ms))
        _ _ refl refl

  module _ (j : Json f) (blank : CommandFrame Float) where
    listen-KeepsLabel : (s : Sketch Float) (i : Pass) → KeepsLabel f s (listen f j blank s i)
    unfolding listen
    listen-KeepsLabel s i =
        let w = ws_loop f j s.frame_ready s.last_frame blank i.message in
        let r : Sketch Float = record s { frame_ready = w.0; last_frame = w.1 } in
        let a = send_memory_step f r i in
        let b = dispatch f a.0 i.frame_at in
        let d = doorbell_timer f b.0 i.doorbell_now in
        let e = indicators f d.0 i in
        let g = service_step f e.0 i in
        let q =
          both-KeepsLabel f r a.0 g.0 a.1 (b.1 ++ (d.1 ++ (e.1 ++ g.1)))
            (send_memory_step-KeepsLabel r i)
            (both-KeepsLabel f a.0 b.0 g.0 b.1 (d.1 ++ (e.1 ++ g.1))
              (dispatch-KeepsLabel f a.0 i.frame_at)
              (both-KeepsLabel f b.0 d.0 g.0 d.1 (e.1 ++ g.1)
                (doorbell_timer-KeepsLabel f b.0 i.doorbell_now)
                (both-KeepsLabel f d.0 e.0 g.0 e.1 g.1 (indicators-KeepsLabel f d.0 i)
                  (service_step-KeepsLabel e.0 i)))) in
        record { follows = λ o h. q.follows o (record { shown = h.shown }) }

    loop-KeepsLabel : (s : Sketch Float) (i : Pass) → KeepsLabel f s (loop f j blank s i)
    unfolding loop last_shown
    loop-KeepsLabel s i =
        let s' : Sketch Float = record s { loop_count = (s.loop_count + 1) % 2 ^ 32 } in
        let wifi : List (Action Float) = if i.wifi_status then [] else connect_wifi ∷ [] in
        let a = retry f s' i in
        let b = listen f j blank a.0 i in
        let stale = check_stale f s' i in
        let q =
          both-KeepsLabel f s s' b.0 (run_updates ∷ []) (wifi ++ (stale ++ (a.1 ++ b.1)))
            (quiet-KeepsLabel f s s' (run_updates ∷ []) refl refl (λ o. refl))
            (both-KeepsLabel f s' s' b.0 wifi (stale ++ (a.1 ++ b.1))
              (quiet-KeepsLabel f s' s' wifi refl refl (wifi-silent i.wifi_status))
              (both-KeepsLabel f s' s' b.0 stale (a.1 ++ b.1)
                (quiet-KeepsLabel f s' s' stale refl refl (check_stale-silent s' i))
                (both-KeepsLabel f s' a.0 b.0 a.1 b.1 (retry-KeepsLabel s' i)
                  (listen-KeepsLabel a.0 i)))) in
        record { follows = λ o h. q.follows o h }

    -- The state and the label after the passes.
    unfoldable pub run_shown :
        Sketch Float → Option (Float × Bytes) → List Pass → Sketch Float × Option (Float × Bytes)
    run_shown s o [] = (s, o)
    run_shown s o (i ∷ passes) =
        let q = loop f j blank s i in run_shown q.0 (last_shown o q.1) passes

    run_shown-Follows :
        (passes : List Pass) (s : Sketch Float) (o : Option (Float × Bytes))
        → Follows f s.display o
        → (let (t, label) = run_shown s o passes in Follows f t.display label)
    unfolding run_shown
    run_shown-Follows [] s o h = h
    run_shown-Follows (i ∷ passes) s o h =
        run_shown-Follows passes (loop f j blank s i).0 (last_shown o (loop f j blank s i).1)
          ((loop-KeepsLabel s i).follows o h)

    -- After `setup` and any passes, whatever the server sends and wherever the screen is touched, the label of
    -- today's temperature holds the temperature that the panel keeps for today, once a WEATHER command has
    -- brought one, in the unit that the panel is switched to: as it is with a degree sign, or converted with °F.
    pub shown_in_unit :
        (frame : CommandFrame Float) (connects : Bool) (hello_at attempt_at : ℕ)
        (passes : List Pass)
        → (let s = (setup f (new_sketch f frame) connects hello_at attempt_at).0 in
            (run_shown s none passes).0.display.today.valid ≡ true)
        → (let s = (setup f (new_sketch f frame) connects hello_at attempt_at).0 in
            let (t, label) = run_shown s none passes in
            label ≡ some (in_unit f t.display.show_fahrenheit t.display.today.temp_c))
    unfolding setup new_sketch new_display
    shown_in_unit frame connects hello_at attempt_at passes valid =
        let q =
          run_shown-Follows passes (setup f (new_sketch f frame) connects hello_at attempt_at).0
            none
            (if_both (λ (q : Sketch Float × List (Action Float)). Follows f q.0.display none)
              connects _ _ (record { shown = λ v. cc }) (record { shown = λ v. cc })) in
        q.shown valid
