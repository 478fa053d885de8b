-- ===== src/Filament/Loop/Attempts.antt =====
-- `loop` of giga-filament.ino: when it tries WiFi.
use house_panel.Base.{
  ℕ, ◌≤◌, ◌≡◌, refl, ◌∙◌, ap, ◌⊎◌, inl, inr, true, false, not, ◌||◌, Option, none, some, List, [],
  ◌∷◌, ◌++◌, arith, ltb, if◌then◌else◌, Bool-cases, if_both,
}
use house_panel.Base.Words.{elapsed}
use house_panel.Json.{Floats, Json}
use house_panel.Filament.Panel.{Panel, Effect, begin_wifi, stop_socket, TouchPoll, poll_touch}
use house_panel.Filament.Frame.{receive_frame}
use house_panel.Filament.Frame.Quiet.{tries_wifi, IsQuiet, receive_frame-IsQuiet}
use house_panel.Filament.Loop.{
  Pass, connect_socket, try_wifi, try_socket, timers, watch, network_step, loop,
}

tries_wifi-append : (es fs : List Effect) → tries_wifi (es ++ fs) ≡ (tries_wifi es || tries_wifi fs)
unfolding tries_wifi
tries_wifi-append [] fs = refl
tries_wifi-append (begin_wifi ∷ es) fs = refl
tries_wifi-append (Effect.run_updates ∷ es) fs = tries_wifi-append es fs
tries_wifi-append (Effect.draw_screen ∷ es) fs = tries_wifi-append es fs
tries_wifi-append (stop_socket ∷ es) fs = tries_wifi-append es fs
tries_wifi-append (Effect.begin_socket ∷ es) fs = tries_wifi-append es fs
tries_wifi-append (Effect.send_hello ∷ es) fs = tries_wifi-append es fs
tries_wifi-append (Effect.set_time e ∷ es) fs = tries_wifi-append es fs
tries_wifi-append (Effect.log_report ∷ es) fs = tries_wifi-append es fs

poll_touch-IsQuiet : {F : Type 0} (p : Panel F) (i : TouchPoll) → IsQuiet p (poll_touch p i)
unfolding poll_touch tries_wifi
poll_touch-IsQuiet p i = ground arith

timers-IsQuiet : {F : Type 0} (p : Panel F) (i : Pass) → IsQuiet p (timers p i)
unfolding timers tries_wifi
timers-IsQuiet p i = ground arith

try_socket-IsQuiet : {F : Type 0} (p : Panel F) (i : Pass) → IsQuiet p (try_socket p i)
unfolding try_socket connect_socket tries_wifi
try_socket-IsQuiet p i = ground arith

-- An attempt, due by the clock of the pass, which is remembered.
record Attempt {F : Type 0} (p : Panel F) (now : ℕ) (q : Panel F × List Effect) : Type 0 where
  made : tries_wifi q.1 ≡ true
  due : p.wifi_tried ≡ true → 15_000 ≤ elapsed now p.last_wifi_try
  tried_is : q.0.wifi_tried ≡ true
  last_is : q.0.last_wifi_try ≡ now

try_wifi-cases :
    {F : Type 0} (p : Panel F) (i : Pass)
    → IsQuiet p (try_wifi p i) ⊎ Attempt p i.now (try_wifi p i)
unfolding try_wifi tries_wifi
try_wifi-cases p i =
    elim (Bool-cases (not p.wifi_tried || not (ltb (elapsed i.now p.last_wifi_try) 15_000))) [
      | inl go ↦ inr (record {
        made = ground arith;
        due = λ e. ground arith;
        tried_is = ground arith;
        last_is = ground arith;
      })
      | inr wait ↦
          inl (record { silent = ground arith; tried_is = ground arith; last_is = ground arith })
    ]

module _ (f : Floats) (j : Json f) where
  open f use {Float}

  watch-IsQuiet : (p : Panel Float) (i : Pass) → IsQuiet p (watch f j p i)
  unfolding watch tries_wifi
  watch-IsQuiet p i =
      let q = receive_frame-IsQuiet f j p i.arrival in
      if_both (IsQuiet p)
        (ltb 90_000 (elapsed i.checked_at (receive_frame f j p i.arrival).0.last_frame)) _ _
        (record {
          silent =
              tries_wifi-append (receive_frame f j p i.arrival).1 (stop_socket ∷ [])
              ∙ ap (λ b. b || false) q.silent;
          tried_is = q.tried_is;
          last_is = q.last_is;
        })
        q

  Stepped : Panel Float → Pass → Panel Float × List Effect → Type 0
  Stepped p i q = IsQuiet p q ⊎ Attempt p i.now q

  network_step-cases : (p : Panel Float) (i : Pass) → Stepped p i (network_step f j p i)
  unfolding network_step Stepped
  network_step-cases p i = if_both (Stepped p i) (not i.wifi_connected) _ _ (try_wifi-cases p i) (
      if_both (Stepped p i) (not i.socket_connected) _ _ (inl (try_socket-IsQuiet p i))
        (inl (watch-IsQuiet p i)))

  loop-cases : (p : Panel Float) (i : Pass) → Stepped p i (loop f j p i)
  unfolding loop Stepped tries_wifi
  loop-cases p i =
      let q₁ = poll_touch p i.touch in
      let a = poll_touch-IsQuiet p i.touch in
      let q₂ = network_step f j q₁.0 i in
      let b = timers-IsQuiet q₂.0 i in
      let q₃ = timers q₂.0 i in
      let told = tries_wifi-append q₁.1 (q₂.1 ++ q₃.1) in
      let told' = tries_wifi-append q₂.1 q₃.1 in
      elim (network_step-cases q₁.0 i) [
        | inl n ↦ inl (record {
          silent = ground (arith, a.silent, n.silent, b.silent);
          tried_is = b.tried_is ∙ n.tried_is ∙ a.tried_is;
          last_is = b.last_is ∙ n.last_is ∙ a.last_is;
        })
        | inr n ↦ inr (record {
          made = ground (arith, a.silent, n.made, b.silent);
          due = λ e. ground (arith, n.due, a.tried_is, a.last_is);
          tried_is = b.tried_is ∙ n.tried_is;
          last_is = b.last_is ∙ n.last_is;
        })
      ]

  -- The clock readings of the passes that call WiFi.begin.
  unfoldable pub wifi_attempts : Panel Float → List Pass → List ℕ
  wifi_attempts p [] = []
  wifi_attempts p (i ∷ is) =
      let (p', es) = loop f j p i in
      let rest = wifi_attempts p' is in if tries_wifi es then i.now ∷ rest else rest

-- Each time is 15 seconds or more after the one before, by a clock of 32 bits; `none` is no time before.
abbrev pub Spaced : Option ℕ → List ℕ → Type 0
Spaced last [] = Unit {0}
Spaced none (t ∷ ts) = Spaced (some t) ts
Spaced (some s) (t ∷ ts) = (15_000 ≤ elapsed t s) × Spaced (some t) ts

abbrev pub last_attempt : {F : Type 0} → Panel F → Option ℕ
last_attempt p = if p.wifi_tried then some p.last_wifi_try else none

module _ (f : Floats) (j : Json f) where
  open f use {Float}

  Spaced-Attempt :
      (p : Panel Float) (now : ℕ) (q : Panel Float × List Effect) (ts : List ℕ)
      → Attempt p now q
      → Spaced (last_attempt q.0) ts
      → Spaced (last_attempt p) (now ∷ ts)
  Spaced-Attempt p now q ts a s =
      let here : Spaced (some now) ts = rw (a.tried_is, a.last_is) at s in
      elim (Bool-cases p.wifi_tried) [ inl e ↦ rw e (a.due e, here) | inr e ↦ rw e here ]

  -- Whatever the passes of the loop read from outside, two attempts to connect to WiFi that follow each
  -- other are at least 15 seconds apart, the last one before the passes included.
  pub wifi_attempts-Spaced :
      (passes : List Pass) (p : Panel Float) → Spaced (last_attempt p) (wifi_attempts f j p passes)
  unfolding wifi_attempts Stepped
  wifi_attempts-Spaced [] p = tt
  wifi_attempts-Spaced (i ∷ is) p =
      let ih = wifi_attempts-Spaced is (loop f j p i).0 in
      elim (loop-cases f j p i) [
        | inl n ↦ rw (n.silent, wifi_attempts) (rw (n.tried_is, n.last_is) at ih)
        | inr a ↦ rw (a.made, wifi_attempts) (Spaced-Attempt p i.now (loop f j p i) _ a ih)
      ]
