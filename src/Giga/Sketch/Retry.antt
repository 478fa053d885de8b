-- ===== src/Giga/Sketch/Retry.antt =====
-- `loop` of housepanel-giga.ino: when it connects the socket.
use mathlib.Core.Path.{subst}
use house_panel.Base.{
  ℕ, ◌+◌, ◌%◌, ◌^◌, ◌≤◌, ◌≡◌, refl, ◌∙◌, ◌⊎◌, inl, inr, true, false, not, ◌&&◌, ◌||◌, List, [], ◌∷◌,
  ◌++◌, arith, ltb, ◌==◌, if◌then◌else◌, if_both, if_cases, ltb→ge,
}
use house_panel.Base.Words.{elapsed}
use house_panel.Json.{Floats, Json}
use house_panel.Command.{CommandFrame}
use house_panel.Giga.Socket.{ws_loop}
use house_panel.Giga.Sketch.Quiet.{
  connects_socket, connects-append, Quiet, same-Quiet, both-Quiet, dispatch-Quiet,
  doorbell_timer-Quiet, indicators-Quiet, send_memory_step-Quiet, service_step-Quiet,
}
use house_panel.Giga.Sketch.{data_stale_timeout_ms, Sketch, Action, Pass, connect_wifi, dispatch}
use house_panel.Giga.Sketch.Loop.{
  doorbell_timer, indicators, check_stale, retry, send_memory_step, service_step, listen, loop,
}

-- Each attempt is at least five seconds after the one before.
abbrev pub Spaced : ℕ → List (ℕ × ℕ) → Type 0
Spaced last [] = Unit {0}
Spaced last (x ∷ xs) = (5000 ≤ elapsed x.0 last) × Spaced x.1 xs

module _ (f : Floats) where
  open f use {Float}

  -- Either the pass does not connect, or the last attempt is at least five seconds ago and
  -- the pass remembers this one.
  record Due (s : Sketch Float) (i : Pass) (q : Sketch Float × List (Action Float)) : Type 0 where
    made : connects_socket q.1 ≡ true
    waited : 5000 ≤ elapsed i.retry_now s.last_ws_attempt_ms
    last_is : q.0.last_ws_attempt_ms ≡ i.retry_at

  retry-cases : (s : Sketch Float) (i : Pass) → Quiet s (retry f s i) ⊎ Due s i (retry f s i)
  unfolding retry connects_socket
  retry-cases s i =
      if_cases (λ q. Quiet s q ⊎ Due s i q)
        (i.retry_connected || ltb (elapsed i.retry_now s.last_ws_attempt_ms) 5000) _ _
        (λ e. inl (same-Quiet s))
        (λ e.
          let waited : 5000 ≤ elapsed i.retry_now s.last_ws_attempt_ms =
            ltb→ge (elapsed i.retry_now s.last_ws_attempt_ms) 5000 (ground (arith, e)) in
          if_both (λ q. Quiet s q ⊎ Due s i q) i.connects _ _
            (inr (record { made = refl; waited = waited; last_is = refl }))
            (inr (record { made = refl; waited = waited; last_is = refl })))

  check_stale-silent : (s : Sketch Float) (i : Pass) → connects_socket (check_stale f s i) ≡ false
  unfolding check_stale connects_socket
  check_stale-silent s i =
      if_both (λ (es : List (Action Float)). connects_socket es ≡ false)
        (i.stale_connected
          && not (s.last_data_rx_ms == 0)
          && ltb data_stale_timeout_ms (elapsed i.stale_now s.last_data_rx_ms))
        _ _ refl refl

  -- What stands around the retry's actions.
  around :
      (xs bs es fs : List (Action Float))
      → connects_socket xs ≡ false
      → connects_socket bs ≡ false
      → connects_socket fs ≡ false
      → connects_socket (xs ++ (bs ++ (es ++ fs))) ≡ connects_socket es
  around xs bs es fs a b d = ground (
    arith,
    a,
    b,
    d,
    connects-append xs (bs ++ (es ++ fs)),
    connects-append bs (es ++ fs),
    connects-append es fs,
  )

  module _ (j : Json f) (blank : CommandFrame Float) where
    listen-Quiet : (s : Sketch Float) (i : Pass) → Quiet s (listen f j blank s i)
    unfolding listen connects_socket
    listen-Quiet s i =
        let w = ws_loop f j s.frame_ready s.last_frame blank i.message in
        let r : Sketch Float = record s { frame_ready = w.0; last_frame = w.1 } in
        let a = send_memory_step f r i in
        let b = dispatch f a.0 i.frame_at in
        let d = doorbell_timer f b.0 i.doorbell_now in
        let e = indicators f d.0 i in
        let g = service_step f e.0 i in
        let q =
          both-Quiet r a.0 g.0 a.1 (b.1 ++ (d.1 ++ (e.1 ++ g.1))) (send_memory_step-Quiet f r i) (
            both-Quiet a.0 b.0 g.0 b.1 (d.1 ++ (e.1 ++ g.1)) (dispatch-Quiet f a.0 i.frame_at) (
              both-Quiet b.0 d.0 g.0 d.1 (e.1 ++ g.1) (doorbell_timer-Quiet f b.0 i.doorbell_now) (
                both-Quiet d.0 e.0 g.0 e.1 g.1 (indicators-Quiet f d.0 i)
                  (service_step-Quiet f e.0 i)))) in
        record { silent = q.silent; last_is = q.last_is }

    loop-cases :
        (s : Sketch Float) (i : Pass) → Quiet s (loop f j blank s i) ⊎ Due s i (loop f j blank s i)
    unfolding loop check_stale connects_socket
    loop-cases s i =
        let s' : Sketch Float = record s { loop_count = (s.loop_count + 1) % 2 ^ 32 } in
        let wifi : List (Action Float) = if i.wifi_status then [] else connect_wifi ∷ [] in
        let stale = check_stale f s' i in
        let a = retry f s' i in
        let b = listen f j blank a.0 i in
        let no_wifi : connects_socket wifi ≡ false =
          if_both (λ (es : List (Action Float)). connects_socket es ≡ false) i.wifi_status _ _ refl
            refl in
        let no_stale : connects_socket stale ≡ false = check_stale-silent s' i in
        let after = listen-Quiet a.0 i in
        let all : connects_socket (wifi ++ (stale ++ (a.1 ++ b.1))) ≡ connects_socket a.1 =
          around wifi stale a.1 b.1 no_wifi no_stale after.silent in
        elim (retry-cases s' i) [
          | inl q ↦ inl (record { silent = all ∙ q.silent; last_is = after.last_is ∙ q.last_is })
          | inr d ↦ inr (record {
            made = all ∙ d.made;
            waited = d.waited;
            last_is = after.last_is ∙ d.last_is;
          })
        ]

    -- The clocks of the passes that connect: what the test reads, and what is remembered.
    unfoldable pub attempts : Sketch Float → List Pass → List (ℕ × ℕ)
    attempts s [] = []
    attempts s (i ∷ passes) =
        let q = loop f j blank s i in
        let rest = attempts q.0 passes in
        if connects_socket q.1 then (i.retry_now, i.retry_at) ∷ rest else rest

    -- In any run of passes, each attempt to connect the socket is at least five seconds after the one
    -- before, by the clock of the panel modulo 2^32, and the first after the time that is remembered at the
    -- start.
    pub attempts-Spaced :
        (passes : List Pass) (s : Sketch Float) → Spaced s.last_ws_attempt_ms (attempts s passes)
    unfolding attempts
    attempts-Spaced [] s = tt
    attempts-Spaced (i ∷ passes) s =
        let q = loop f j blank s i in
        let rest = attempts-Spaced passes q.0 in
        elim (loop-cases s i) [
          | inl h ↦ rw h.silent (subst (λ n. Spaced n (attempts q.0 passes)) h.last_is rest)
          | inr d ↦ rw d.made (d.waited, subst (λ n. Spaced n (attempts q.0 passes)) d.last_is rest)
        ]
