-- ===== src/Giga/Sketch/Doorbell.antt =====
-- The doorbell in housepanel-giga.ino, over the passes of `loop`.
use mathlib.Core.Path.{subst, ap₂}
use house_panel.Base.{
  ℕ, ap, ◌+◌, ◌*◌, ◌%◌, ◌^◌, ◌<◌, ◌≡◌, ◌≢◌, refl, sym, ◌∙◌, inl, inr, Bool, true, false, not, ◌&&◌,
  List, [], ◌∷◌, arith, leb, Bool-cases,
}
use house_panel.Base.Int.{pos}
use house_panel.Base.Words.{elapsed}
use house_panel.Json.{Floats, Json}
use house_panel.Command.{CommandType, CommandFrame, doorbell, to_uint32}
use house_panel.Giga.Display.{DisplayState}
use house_panel.Giga.Display.Draw.{render_doorbell_interrupt}
use house_panel.Giga.Socket.{ws_loop}
use house_panel.Giga.Sketch.Timer.{
  is_over, state_after, Rung, same-Rung, timer-daily, timer-over, timer-waits,
}
use house_panel.Giga.Sketch.Bell.{
  SameBell, both-SameBell, rings, dispatch-KeepsBell, indicators-KeepsBell, service_step-KeepsBell,
  retry-Retried,
}
use house_panel.Giga.Sketch.{Sketch, Pass, handle_frame, dispatch}
use house_panel.Giga.Sketch.Loop.{
  doorbell_timer, indicators, retry, send_memory_step, service_step, listen, loop, run_loop,
}

module _ (f : Floats) where
  open f use {Float}

  module _ (j : Json f) (blank : CommandFrame Float) where
    -- The frame that a pass hands to `dispatch`, and whether there is one.
    abbrev pub arrival : Sketch Float → Pass → Bool × CommandFrame Float
    arrival s i = ws_loop f j s.frame_ready s.last_frame blank i.message

    -- Whether no pass of a run is handed a DOORBELL.
    unfoldable pub never_rings : Sketch Float → List Pass → Bool
    never_rings s [] = true
    never_rings s (i ∷ passes) =
        not ((arrival s i).0 && rings (arrival s i).1) && never_rings (loop f j blank s i).0 passes

    -- The state that `dispatch` finds, from the one at `ws_loop()`, and the one that the timer leaves.
    found : Sketch Float → Pass → Sketch Float
    unfolding send_memory_step
    found s i =
        (send_memory_step f
          (record s { frame_ready = (arrival s i).0; last_frame = (arrival s i).1 }) i).0

    timed : Sketch Float → Pass → Sketch Float
    timed s i = (doorbell_timer f (dispatch f (found s i) i.frame_at).0 i.doorbell_now).0

    found-SameBell : (s : Sketch Float) (i : Pass) → SameBell s (found s i)
    unfolding found
    found-SameBell s i = record { state_is = refl; start_is = refl; timeout_is = refl }

    listen-SameBell : (s : Sketch Float) (i : Pass) → SameBell (timed s i) (listen f j blank s i).0
    unfolding listen timed found
    listen-SameBell s i =
        let t = timed s i in
        let b =
          both-SameBell t (indicators f t i).0 (service_step f (indicators f t i).0 i).0
            (indicators-KeepsBell f t i) (service_step-KeepsBell f (indicators f t i).0 i) in
        record { state_is = b.state_is; start_is = b.start_is; timeout_is = b.timeout_is }

    -- The state at `ws_loop()`.
    retried : Sketch Float → Pass → Sketch Float
    retried s i = (retry f (record s { loop_count = (s.loop_count + 1) % 2 ^ 32 }) i).0

    loop-listen :
        (s : Sketch Float) (i : Pass)
        → (loop f j blank s i).0 ≡ (listen f j blank (retried s i) i).0
    unfolding loop retried
    loop-listen s i = refl

    retried-SameBell : (s : Sketch Float) (i : Pass) → SameBell s (retried s i)
    unfolding retried
    retried-SameBell s i =
        let b = (retry-Retried f (record s { loop_count = (s.loop_count + 1) % 2 ^ 32 }) i).bell in
        record { state_is = b.state_is; start_is = b.start_is; timeout_is = b.timeout_is }

    arrival-retried : (s : Sketch Float) (i : Pass) → arrival (retried s i) i ≡ arrival s i
    unfolding retried
    arrival-retried s i =
        let r = retry-Retried f (record s { loop_count = (s.loop_count + 1) % 2 ^ 32 }) i in
        ap₂ (λ ready frame. ws_loop f j ready frame blank i.message) r.ready_is r.frame_is

    -- A pass that is handed no DOORBELL: the timer finds the doorbell of the state before.
    quiet-SameBell :
        (s : Sketch Float) (i : Pass)
        → ((arrival s i).0 && rings (arrival s i).1) ≡ false
        → SameBell s (dispatch f (found (retried s i) i) i.frame_at).0
    unfolding found
    quiet-SameBell s i h =
        let r = retried s i in
        both-SameBell s r _ (retried-SameBell s i) (
          both-SameBell r (found r i) _ (found-SameBell r i) (
            dispatch-KeepsBell f (found r i) i.frame_at
              (ap (λ (q : Bool × CommandFrame Float). q.0 && rings q.1) (arrival-retried s i) ∙ h)))

    loop-SameBell :
        (s : Sketch Float) (i : Pass) → SameBell (timed (retried s i) i) (loop f j blank s i).0
    loop-SameBell s i =
        subst (SameBell (timed (retried s i) i)) (sym (loop-listen s i))
          (listen-SameBell (retried s i) i)

    daily-run_loop :
        (passes : List Pass) (s : Sketch Float)
        → s.display.state ≡ DisplayState.daily_view
        → never_rings s passes ≡ true
        → (run_loop f j blank s passes).display.state ≡ DisplayState.daily_view
    unfolding run_loop never_rings timed
    daily-run_loop [] s h q = h
    daily-run_loop (i ∷ passes) s h q =
        let b = quiet-SameBell s i (ground (arith, q)) in
        daily-run_loop passes (loop f j blank s i).0
          ((loop-SameBell s i).state_is ∙ timer-daily f _ i.doorbell_now (b.state_is ∙ h))
          (ground (arith, q))

    -- A pass whose `dispatch` leaves the doorbell shown, and the passes after it, with what they do where
    -- it is shown still.
    after-Rung :
        (start ms : ℕ) (i : Pass) (passes : List Pass) (s : Sketch Float)
        → Rung start ms (dispatch f (found (retried s i) i) i.frame_at).0
        → ms ≢ 0
        → never_rings (loop f j blank s i).0 passes ≡ true
        → (Rung start ms (loop f j blank s i).0
            → (run_loop f j blank (loop f j blank s i).0 passes).display.state
              ≡ state_after (is_over start ms passes))
        → (run_loop f j blank s (i ∷ passes)).display.state
          ≡ state_after (is_over start ms (i ∷ passes))
    unfolding run_loop timed
    after-Rung start ms i passes s r n q rest =
        elim (Bool-cases (leb ms (elapsed i.doorbell_now start))) [
          | inl over ↦ rw over (
              daily-run_loop passes (loop f j blank s i).0
                ((loop-SameBell s i).state_is ∙ timer-over f start ms _ i.doorbell_now r n over) q)
          | inr wait ↦ rw wait (
              rest (
                same-Rung start ms _ (loop f j blank s i).0 (loop-SameBell s i)
                  (timer-waits f start ms _ i.doorbell_now r wait)))
        ]

    run_loop-Rung :
        (start ms : ℕ) (passes : List Pass) (s : Sketch Float)
        → Rung start ms s
        → ms ≢ 0
        → never_rings s passes ≡ true
        → (run_loop f j blank s passes).display.state ≡ state_after (is_over start ms passes)
    unfolding run_loop never_rings
    run_loop-Rung start ms [] s r n q = r.state_is
    run_loop-Rung start ms (i ∷ passes) s r n q =
        let rest : never_rings (loop f j blank s i).0 passes ≡ true = ground (arith, q) in
        after-Rung start ms i passes s
          (same-Rung start ms s _ (quiet-SameBell s i (ground (arith, q))) r) n rest
          (λ t. run_loop-Rung start ms passes (loop f j blank s i).0 t n rest)

    dispatched-Rung :
        (s : Sketch Float) (at seconds : ℕ)
        → (s.frame_ready ≡ true)
        → s.last_frame
          ≡ record { type = CommandType.type_doorbell; payload = doorbell (pos seconds) }
        → seconds * 1000 < 2 ^ 32
        → Rung at (seconds * 1000) (dispatch f s at).0
    unfolding dispatch handle_frame render_doorbell_interrupt
    dispatched-Rung s at seconds ready frame fits =
        let ms : to_uint32 (pos seconds) * 1000 % 2 ^ 32 ≡ seconds * 1000 = omega arith in
        let same : record s {
          frame_ready = true;
          last_frame = record {
            type = CommandType.type_doorbell;
            payload = doorbell (pos seconds);
          };
        }
            ≡ s =
          ap₂ (λ b g. record s { frame_ready = b; last_frame = g }) (sym ready) (sym frame) in
        subst (λ (t : Sketch Float). Rung at (seconds * 1000) (dispatch f t at).0) same
          (record { state_is = refl; start_is = refl; timeout_is = ms })

    -- After a pass that is handed a DOORBELL of at least one second, whose milliseconds fit 32 bits, and passes that
    -- are handed no other one, whatever else comes, the panel shows the doorbell if none of these passes has
    -- found the seconds over since the command, and the daily view if one has.
    pub doorbell_shown :
        (s : Sketch Float) (i : Pass) (seconds : ℕ) (passes : List Pass)
        → arrival s i
          ≡ (true, record { type = CommandType.type_doorbell; payload = doorbell (pos seconds) })
        → 0 < seconds
        → seconds * 1000 < 2 ^ 32
        → never_rings (loop f j blank s i).0 passes ≡ true
        → (run_loop f j blank s (i ∷ passes)).display.state
          ≡ state_after (is_over i.frame_at (seconds * 1000) (i ∷ passes))
    unfolding found
    doorbell_shown s i seconds passes rung some fits q =
        let r = retried s i in
        let here = arrival-retried s i ∙ rung in
        let shown =
          dispatched-Rung (found r i) i.frame_at seconds (ap (λ q. q.0) here) (ap (λ q. q.1) here)
            fits in
        let n : seconds * 1000 ≢ 0 = omega arith in
        after-Rung i.frame_at (seconds * 1000) i passes s shown n q
          (λ t. run_loop-Rung i.frame_at (seconds * 1000) passes (loop f j blank s i).0 t n q)
