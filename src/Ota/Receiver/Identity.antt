-- ===== src/Ota/Receiver/Identity.antt =====
-- The search for the panel's identity in the image: the third loop of OtaReceiver::feed.
pub mod Search
use house_panel.Base.{
  ℕ, zero, suc, ◌+◌, ◌<◌, ◌≡◌, refl, Bool, true, false, List, [], ◌∷◌, ◌++◌, arith, ◌==◌,
  if◌then◌else◌, Bytes, length, get_or,
}

-- One byte against `_identity[_matched]`, or else against the first byte.
unfoldable pub advance_match : Bytes → ℕ → ℕ → ℕ
advance_match identity matched x =
    if x == get_or identity matched 0
    then matched + 1
    else if x == get_or identity 0 0
    then 1
    else 0

-- `_matched` and `_identity_found` after the bytes; the loop ends where the text is complete.
unfoldable pub scan : Bytes → ℕ → Bytes → ℕ × Bool
unfolding advance_match
scan identity matched [] = (matched, false)
scan identity matched (x ∷ xs) =
    let m = advance_match identity matched x in
    let rest = scan identity m xs in if m == length identity then (m, true) else rest

-- The loop's own condition: nothing is searched once the text is found.
unfoldable pub resume : Bytes → ℕ → Bool → Bytes → ℕ × Bool
resume identity matched true xs = (matched, true)
resume identity matched false xs = scan identity matched xs
