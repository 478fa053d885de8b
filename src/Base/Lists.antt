-- ===== src/Base/Lists.antt =====
-- Lists measured and indexed by native numbers, under the library's names, and arrays of bytes.
use Prim.Native.Nat.{ℕ, zero, suc, ◌+◌, ◌-◌, ◌≤◌, ◌<◌, min}
use mathlib.Core.Path.{◌≡◌, refl, ap, ◌∙◌}
use mathlib.Core.Logic.{◌↔◌}
use mathlib.Core.Bool.{Bool, true, false, ◌&&◌}
use mathlib.Core.List.{List, [], ◌∷◌, ◌++◌}
use mathlib.Core.Option.{Option, none, some}
use native.Mathlib.Omega.{arith}
use house_panel.Base.Tests.{◌==◌, ltb}

-- An array of bytes, or a C string up to its terminator.
abbrev pub Bytes : Type 0
Bytes = List ℕ

module _ {ℓ} {A : Type ℓ} where
  abbrev pub length : List A → ℕ
  length [] = 0
  length (x ∷ xs) = suc (length xs)

  abbrev pub get_elem? : List A → ℕ → Option A
  get_elem? [] i = none
  get_elem? (x ∷ xs) zero = some x
  get_elem? (x ∷ xs) (suc i) = get_elem? xs i

  abbrev pub get_or : List A → ℕ → A → A
  get_or [] i d = d
  get_or (x ∷ xs) zero d = x
  get_or (x ∷ xs) (suc i) d = get_or xs i d

  abbrev pub take : ℕ → List A → List A
  take zero xs = []
  take (suc n) [] = []
  take (suc n) (x ∷ xs) = x ∷ take n xs

  abbrev pub drop : ℕ → List A → List A
  drop zero xs = xs
  drop (suc n) [] = []
  drop (suc n) (x ∷ xs) = drop n xs

  abbrev pub replicate : ℕ → A → List A
  replicate zero a = []
  replicate (suc n) a = a ∷ replicate n a

  pub length-append : (xs ys : List A) → length (xs ++ ys) ≡ length xs + length ys
  length-append [] ys = omega arith
  length-append (x ∷ xs) ys = omega (arith, length-append xs ys)

  pub length-take : (n : ℕ) (xs : List A) → length (take n xs) ≡ min n (length xs)
  length-take zero xs = omega arith
  length-take (suc n) [] = omega arith
  length-take (suc n) (x ∷ xs) = omega (arith, length-take n xs)

  pub length-drop : (n : ℕ) (xs : List A) → length (drop n xs) ≡ length xs - n
  length-drop zero xs = omega arith
  length-drop (suc n) [] = omega arith
  length-drop (suc n) (x ∷ xs) = omega (arith, length-drop n xs)

  pub take-append-drop : (n : ℕ) (xs : List A) → take n xs ++ drop n xs ≡ xs
  take-append-drop zero xs = refl
  take-append-drop (suc n) [] = refl
  take-append-drop (suc n) (x ∷ xs) = rw (take-append-drop n xs)

  pub take_length : (n : ℕ) (xs : List A) → length xs ≤ n → take n xs ≡ xs
  take_length zero [] h = refl
  take_length zero (x ∷ xs) h = absurd (omega arith)
  take_length (suc n) [] h = refl
  take_length (suc n) (x ∷ xs) h = ap (◌∷◌ x) (take_length n xs (omega arith))

-- Filling up to `n` from a second list.
pub take_more {ℓ} :
    {A : Type ℓ} (n : ℕ) (xs ys : List A)
    → take n xs ++ take (n - length (take n xs)) ys ≡ take n (xs ++ ys)
take_more zero xs ys = refl
take_more (suc n) [] ys = ap (λ m. take m ys) (let all : suc n - 0 ≡ suc n = omega arith in all)
take_more (suc n) (x ∷ xs) ys =
    let left : suc n - suc (length (take n xs)) ≡ n - length (take n xs) = omega arith in
    ap (◌∷◌ x) (ap (λ m. take n xs ++ take m ys) left ∙ take_more n xs ys)

-- `memcmp(a, b, size) == 0` and `strcmp(a, b) == 0`.
abbrev pub bytes_eq : Bytes → Bytes → Bool
bytes_eq [] [] = true
bytes_eq [] (y ∷ ys) = false
bytes_eq (x ∷ xs) [] = false
bytes_eq (x ∷ xs) (y ∷ ys) = x == y && bytes_eq xs ys

pub bytes_eq_iff : (a b : Bytes) → (bytes_eq a b ≡ true) ↔ (a ≡ b)
bytes_eq_iff (x ∷ a) (y ∷ b) = ground (arith, bytes_eq_iff a b)
bytes_eq_iff _ _ = ground arith

-- Every element is a byte.
abbrev pub IsByteList : Bytes → Type 0
IsByteList [] = Unit {0}
IsByteList (x ∷ xs) = (x < 256) × IsByteList xs

pub take-IsByteList : (n : ℕ) (xs : Bytes) → IsByteList xs → IsByteList (take n xs)
take-IsByteList zero xs b = tt
take-IsByteList (suc n) [] b = tt
take-IsByteList (suc n) (x ∷ xs) b = (b.0, take-IsByteList n xs b.1)

pub append-IsByteList : (xs ys : Bytes) → IsByteList xs → IsByteList ys → IsByteList (xs ++ ys)
append-IsByteList [] ys a b = b
append-IsByteList (x ∷ xs) ys a b = (a.0, append-IsByteList xs ys a.1 b)

pub drop-IsByteList : (n : ℕ) (xs : Bytes) → IsByteList xs → IsByteList (drop n xs)
drop-IsByteList zero xs b = b
drop-IsByteList (suc n) [] b = tt
drop-IsByteList (suc n) (x ∷ xs) b = drop-IsByteList n xs b.1

module _ {ℓ} {A : Type ℓ} where
  abbrev pub every : (A → Bool) → List A → Bool
  every p [] = true
  every p (x ∷ xs) = p x && every p xs

  pub every-at :
      (p : A → Bool) (xs : List A) (i : ℕ) (x : A)
      → every p xs ≡ true
      → get_elem? xs i ≡ some x
      → p x ≡ true
  every-at p [] i x h e = cc
  every-at p (a ∷ xs) zero x h e = ground arith
  every-at p (a ∷ xs) (suc i) x h e = every-at p xs i x (ground arith) e

  pub get_elem?-lt : (xs : List A) (i : ℕ) → i < length xs → (a : A) × (get_elem? xs i ≡ some a)
  get_elem?-lt [] i h = absurd (omega arith)
  get_elem?-lt (x ∷ xs) zero h = (x, refl)
  get_elem?-lt (x ∷ xs) (suc i) h = get_elem?-lt xs i (omega arith)

  pub get_elem?-bound : (xs : List A) (i : ℕ) (a : A) → get_elem? xs i ≡ some a → i < length xs
  get_elem?-bound [] i a e = cc
  get_elem?-bound (x ∷ xs) zero a e = omega arith
  get_elem?-bound (x ∷ xs) (suc i) a e = omega (arith, get_elem?-bound xs i a e)

pub no_bytes : (xs : Bytes) → length xs ≡ 0 → xs ≡ []
no_bytes [] e = refl
no_bytes (x ∷ xs) e = absurd (omega arith)

pub take-within {ℓ} :
    {A : Type ℓ} (n : ℕ) (xs ys : List A) → n ≤ length xs → take n (xs ++ ys) ≡ take n xs
take-within zero xs ys h = refl
take-within (suc n) [] ys h = absurd (omega arith)
take-within (suc n) (x ∷ xs) ys h = ap (◌∷◌ x) (take-within n xs ys (omega arith))

pub every-IsByteList : (xs : Bytes) → every (λ b. ltb b 256) xs ≡ true → IsByteList xs
every-IsByteList [] h = tt
every-IsByteList (x ∷ xs) h =
    let rest = every-IsByteList xs (ground (arith, h)) in (ground (arith, h), rest)
