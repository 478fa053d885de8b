-- ===== src/Giga/Sketch/Timer.antt =====
-- `doorbell_timer` of housepanel-giga.ino at one pass.
use house_panel.Base.{
  ℕ, ap, ◌≡◌, ◌≢◌, ◌∙◌, Bool, true, false, ◌||◌, List, [], ◌∷◌, arith, leb, if◌then◌else◌,
}
use house_panel.Base.Words.{elapsed}
use house_panel.Json.{Floats}
use house_panel.Giga.Display.{DisplayState}
use house_panel.Giga.Display.Draw.{dismiss_doorbell}
use house_panel.Giga.Sketch.Bell.{SameBell}
use house_panel.Giga.Sketch.{Sketch, Pass}
use house_panel.Giga.Sketch.Loop.{doorbell_timer}

-- Whether a pass finds that `ms` are over since `start`.
abbrev pub is_over : ℕ → ℕ → List Pass → Bool
is_over start ms [] = false
is_over start ms (i ∷ passes) = leb ms (elapsed i.doorbell_now start) || is_over start ms passes

abbrev pub state_after : Bool → DisplayState
state_after over = if over then DisplayState.daily_view else DisplayState.doorbell_interrupt

-- The doorbell is shown, since `start` and for `ms`.
pub record Rung {F : Type 0} (start ms : ℕ) (s : Sketch F) : Type 0 where
  pub state_is : s.display.state ≡ DisplayState.doorbell_interrupt
  pub start_is : s.doorbell_start_ms ≡ start
  pub timeout_is : s.doorbell_timeout_ms ≡ ms

pub same-Rung :
    {F : Type 0} (start ms : ℕ) (s t : Sketch F) → SameBell s t → Rung start ms s → Rung start ms t
same-Rung start ms s t b r = record {
  state_is = b.state_is ∙ r.state_is;
  start_is = b.start_is ∙ r.start_is;
  timeout_is = b.timeout_is ∙ r.timeout_is;
}

module _ (f : Floats) where
  open f use {Float}

  pub timer-daily :
      (s : Sketch Float) (now : ℕ)
      → s.display.state ≡ DisplayState.daily_view
      → (doorbell_timer f s now).0.display.state ≡ DisplayState.daily_view
  unfolding doorbell_timer
  timer-daily s now h = ground (arith, h)

  pub timer-over :
      (start ms : ℕ) (s : Sketch Float) (now : ℕ)
      → Rung start ms s
      → ms ≢ 0
      → leb ms (elapsed now start) ≡ true
      → (doorbell_timer f s now).0.display.state ≡ DisplayState.daily_view
  unfolding doorbell_timer dismiss_doorbell
  timer-over start ms s now r n over = ground (arith, r.state_is, r.start_is, r.timeout_is, n, over)

  pub timer-waits :
      (start ms : ℕ) (s : Sketch Float) (now : ℕ)
      → Rung start ms s
      → leb ms (elapsed now start) ≡ false
      → Rung start ms (doorbell_timer f s now).0
  unfolding doorbell_timer
  timer-waits start ms s now r wait =
      let same : (doorbell_timer f s now).0 ≡ s =
        ground (arith, r.state_is, r.start_is, r.timeout_is, wait) in
      record {
        state_is = ap (λ (t : Sketch Float). t.display.state) same ∙ r.state_is;
        start_is = ap (λ (t : Sketch Float). t.doorbell_start_ms) same ∙ r.start_is;
        timeout_is = ap (λ (t : Sketch Float). t.doorbell_timeout_ms) same ∙ r.timeout_is;
      }
