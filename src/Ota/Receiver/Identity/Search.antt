-- ===== src/Ota/Receiver/Identity/Search.antt =====
-- The search for the identity against its meaning: the text occurs in the image.
use mathlib.Core.List.{append_assoc, append-nil}
use mathlib.Core.Path.{subst}
use house_panel.Base.{
  ℕ, zero, suc, ◌+◌, ◌<◌, ◌≤◌, ◌≡◌, ◌≢◌, refl, sym, ap, ◌∙◌, inl, inr, true, [], ◌∷◌, ◌++◌, arith,
  ◌==◌, if◌then◌else◌, Bytes, length, length-drop, get_or, take, drop, Bool-cases, ==_iff,
  take_length,
}
use house_panel.Ota.Receiver.Identity.{advance_match, scan, resume}

-- The text stands somewhere in the bytes.
pub record Occurs (text bytes : Bytes) : Type 0 where
  pub before : Bytes
  pub after : Bytes
  pub splits : bytes ≡ before ++ (text ++ after)

-- The bytes end with the first `m` of the text.
record EndsWith (text : Bytes) (m : ℕ) (bytes : Bytes) : Type 0 where
  before : Bytes
  splits : bytes ≡ before ++ take m text

take-suc :
    (m : ℕ) (text : Bytes)
    → m < length text
    → take (suc m) text ≡ take m text ++ get_or text m 0 ∷ []
take-suc zero [] h = absurd (omega arith)
take-suc zero (x ∷ xs) h = refl
take-suc (suc m) [] h = absurd (omega arith)
take-suc (suc m) (x ∷ xs) h = ap (◌∷◌ x) (take-suc m xs (omega arith))

longer :
    (text bytes : Bytes) (m x : ℕ)
    → m < length text
    → (e : EndsWith text m bytes) → x == get_or text m 0 ≡ true
    → bytes ++ x ∷ [] ≡ e.before ++ take (m + 1) text
longer text bytes m x h e hit =
    ap (λ b. b ++ x ∷ []) e.splits
    ∙ append_assoc e.before (take m text) (x ∷ [])
    ∙ ap (◌++◌ e.before) (
        ap (λ y. take m text ++ y ∷ []) ((==_iff x (get_or text m 0)).0 hit)
        ∙ sym (take-suc m text h)
        ∙ ap (λ k. take k text) (let next : suc m ≡ m + 1 = omega arith in next))

one :
    (text bytes : Bytes) (x : ℕ)
    → 0 < length text
    → x == get_or text 0 0 ≡ true
    → bytes ++ x ∷ [] ≡ bytes ++ take 1 text
one text bytes x h first =
    ap (λ y. bytes ++ y ∷ []) ((==_iff x (get_or text 0 0)).0 first)
    ∙ ap (◌++◌ bytes) (sym (take-suc 0 text h))

whole :
    (text bytes : Bytes) (m x : ℕ) (xs : Bytes)
    → m ≡ length text
    → EndsWith text m (bytes ++ x ∷ [])
    → Occurs text (bytes ++ x ∷ xs)
whole text bytes m x xs h e = record {
  before = e.before;
  after = xs;
  splits =
      sym (append_assoc bytes (x ∷ []) xs)
      ∙ ap (λ b. b ++ xs) (e.splits ∙ ap (◌++◌ e.before) (take_length m text (omega arith)))
      ∙ append_assoc e.before text xs;
}

-- One byte keeps what the search knows: the last `m` bytes are the first `m` of the text.
advance_match-EndsWith :
    (text bytes : Bytes) (m x : ℕ)
    → m < length text
    → EndsWith text m bytes
    → (advance_match text m x ≤ length text)
      × EndsWith text (advance_match text m x) (bytes ++ x ∷ [])
unfolding advance_match
advance_match-EndsWith text bytes m x h e = elim (Bool-cases (x == get_or text m 0)) [
  | inl hit ↦
      rw hit (omega arith, record { before = e.before; splits = longer text bytes m x h e hit })
  | inr miss ↦ rw miss (elim (Bool-cases (x == get_or text 0 0)) [
    | inl first ↦
        rw first
          (omega arith, record { before = bytes; splits = one text bytes x (omega arith) first })
    | inr other ↦
        rw other (omega arith, record { before = bytes ++ x ∷ []; splits = sym (append-nil _) })
  ])
]

scan-Occurs :
    (text bytes : Bytes) (m : ℕ) (xs : Bytes)
    → m < length text
    → EndsWith text m bytes
    → (scan text m xs).1 ≡ true
    → Occurs text (bytes ++ xs)
unfolding scan
scan-Occurs text bytes m [] h e f = cc
scan-Occurs text bytes m (x ∷ xs) h e f =
    let step = advance_match-EndsWith text bytes m x h e in
    elim (Bool-cases (advance_match text m x == length text)) [
      | inl done ↦ whole text bytes _ x xs (ground arith) step.1
      | inr more ↦
          subst (Occurs text) (append_assoc bytes (x ∷ []) xs)
            (scan-Occurs text (bytes ++ x ∷ []) _ xs (ground arith) step.1 (ground arith))
    ]

-- If the search from the start says that it has found a text that is not empty, the text occurs in
-- the bytes.
pub scan_sound : (text image : Bytes) → text ≢ [] → (scan text 0 image).1 ≡ true → Occurs text image
scan_sound [] image h f = absurd (h refl)
scan_sound (t ∷ ts) image h f =
    scan-Occurs (t ∷ ts) [] 0 image (omega arith) (record { before = []; splits = refl }) f

-- A search that is resumed chunk by chunk is one search of the whole.
pub resume-append :
    (text : Bytes) (m : ℕ) (xs ys : Bytes)
    → scan text m (xs ++ ys) ≡ resume text (scan text m xs).0 (scan text m xs).1 ys
unfolding scan resume
resume-append text m [] ys = refl
resume-append text m (x ∷ xs) ys = ground (arith, resume-append text (advance_match text m x) xs ys)

-- The byte does not occur.
abbrev pub Absent : ℕ → Bytes → Type 0
Absent x [] = Unit {0}
Absent x (y ∷ ys) = (x ≢ y) × Absent x ys

Absent-get_or : (x : ℕ) (ys : Bytes) (i : ℕ) → Absent x ys → i < length ys → x ≢ get_or ys i 0
Absent-get_or x [] i a h = absurd (omega arith)
Absent-get_or x (y ∷ ys) zero a h = a.0
Absent-get_or x (y ∷ ys) (suc i) a h = Absent-get_or x ys i a.1 (omega arith)

drop-cons :
    (m : ℕ) (text : Bytes) (y : ℕ) (ys : Bytes)
    → drop m text ≡ y ∷ ys
    → (get_or text m 0 ≡ y) × (drop (m + 1) text ≡ ys)
drop-cons zero [] y ys e = cc
drop-cons zero (x ∷ xs) y ys e = ground arith
drop-cons (suc m) [] y ys e = cc
drop-cons (suc m) (x ∷ xs) y ys e =
    let (here, there) = drop-cons m xs y ys e in
    (
      here,
      ap (λ k. drop k (x ∷ xs)) (let next : suc m + 1 ≡ suc (m + 1) = omega arith in next) ∙ there,
    )

advance_match-hit : (text : Bytes) (m y : ℕ) → get_or text m 0 ≡ y → advance_match text m y ≡ m + 1
unfolding advance_match
advance_match-hit text m y e = ground arith

advance_match-le : (text : Bytes) (m y : ℕ) → m < length text → advance_match text m y ≤ length text
unfolding advance_match
advance_match-le text m y h = ground arith

not_last :
    (text : Bytes) (m y : ℕ) (ys : Bytes) → drop m text ≡ y ∷ ys → m + 1 ≢ length text → ys ≢ []
not_last text m y [] e h n = h (omega (arith, ap length e, length-drop {0} m text))
not_last text m y (z ∷ zs) e h n = cc

-- The search that meets the rest of the text finds it.
scan_rest :
    (text : Bytes) (m : ℕ) (rest after : Bytes)
    → drop m text ≡ rest
    → rest ≢ []
    → (scan text m (rest ++ after)).1 ≡ true
unfolding scan
scan_rest text m [] after e h = absurd (h refl)
scan_rest text m (y ∷ ys) after e h =
    let (here, there) = drop-cons m text y ys e in
    rw (advance_match-hit text m y here) (elim (Bool-cases (m + 1 == length text)) [
      | inl done ↦ rw done refl
      | inr more ↦
          rw more (scan_rest text (m + 1) ys after there (not_last text m y ys e (ground arith)))
    ])

-- The first byte of a text that has it nowhere else brings the search to the second, from any state.
advance_match-first :
    (t : ℕ) (ts : Bytes) (m : ℕ)
    → Absent t ts
    → m < length (t ∷ ts)
    → advance_match (t ∷ ts) m t ≡ 1
unfolding advance_match
advance_match-first t ts zero a h = ground arith
advance_match-first t ts (suc m) a h = ground (arith, Absent-get_or t ts m a)

from_second :
    (t : ℕ) (ts after : Bytes)
    → (if 1 == suc (length ts) then (1, true) else scan (t ∷ ts) 1 (ts ++ after)).1 ≡ true
from_second t [] after = refl
from_second t (u ∷ us) after =
    ground (arith, scan_rest (t ∷ u ∷ us) 1 (u ∷ us) after refl (λ e. cc))

scan_from :
    (t : ℕ) (ts before after : Bytes) (m : ℕ)
    → Absent t ts
    → m < length (t ∷ ts)
    → (scan (t ∷ ts) m (before ++ ((t ∷ ts) ++ after))).1 ≡ true
unfolding scan
scan_from t ts [] after m a h = rw (advance_match-first t ts m a h) (from_second t ts after)
scan_from t ts (b ∷ before) after m a h =
    let within = advance_match-le (t ∷ ts) m b h in
    elim (Bool-cases (advance_match (t ∷ ts) m b == suc (length ts))) [
      | inl done ↦ rw done refl
      | inr more ↦
          rw more (scan_from t ts before after (advance_match (t ∷ ts) m b) a (ground arith))
    ]

-- A text whose first byte stands nowhere else in it is found wherever it occurs.
pub scan_complete :
    (t : ℕ) (ts image : Bytes)
    → Absent t ts
    → Occurs (t ∷ ts) image
    → (scan (t ∷ ts) 0 image).1 ≡ true
scan_complete t ts image a o =
    subst (λ b. (scan (t ∷ ts) 0 b).1 ≡ true) (sym o.splits)
      (scan_from t ts o.before o.after 0 a (omega arith))
