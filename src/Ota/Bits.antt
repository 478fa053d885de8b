-- ===== src/Ota/Bits.antt =====
-- Bytes under `^` and `|`: the comparison `equal` of ota_protocol.cpp, and big- and little-endian
-- words. The facts about single bytes are checked over all their values.
use house_panel.Base.{
  ℕ, zero, suc, ◌+◌, ◌*◌, ◌%◌, ◌^◌, ◌<◌, ◌≡◌, refl, ◌↔◌, Bool, true, false, not, ◌&&◌, [], ◌∷◌,
  arith, bit_or, bit_xor, ltb, ◌==◌, if◌then◌else◌, Bytes, IsByteList,
}

-- The test passes for the bytes `0 … n - 1`.
passes : (ℕ → Bool) → ℕ → Bool
passes test zero = true
passes test (suc n) = if passes test n then test n else false

passes-at : (test : ℕ → Bool) (bound i : ℕ) → i < bound → passes test bound ≡ true → test i ≡ true
unfolding passes
passes-at test zero i below run = absurd (omega arith)
passes-at test (suc n) i below run = ground (arith, passes-at test n i)

abbrev same : Bool → Bool → Bool
same true b = b
same false b = not b

-- `d | (x ^ y)`, as one byte of the loop computes it, tests for equality and stays a byte.
abbrev xor_test : ℕ → ℕ → Bool
xor_test x y = ltb (bit_xor x y) 256 && same (bit_xor x y == 0) (x == y)

abbrev or_test : ℕ → ℕ → Bool
or_test x y = ltb (bit_or x y) 256 && same (bit_or x y == 0) (x == 0 && y == 0)

xor_passes : passes (λ x. passes (xor_test x) 256) 256 ≡ true
unfolding passes
xor_passes = refl

or_passes : passes (λ x. passes (or_test x) 256) 256 ≡ true
unfolding passes
or_passes = refl

-- A test of two bytes that passes for all of them.
both-at :
    (test : ℕ → ℕ → Bool)
    → passes (λ x. passes (test x) 256) 256 ≡ true
    → (x y : ℕ) → x < 256
    → y < 256
    → test x y ≡ true
both-at test run x y hx hy =
    passes-at (test x) 256 y hy (passes-at (λ a. passes (test a) 256) 256 x hx run)

pub bit_xor-lt : (x y : ℕ) → x < 256 → y < 256 → bit_xor x y < 256
bit_xor-lt x y hx hy = ground (arith, both-at xor_test xor_passes x y hx hy)

pub bit_xor-zero : (x y : ℕ) → x < 256 → y < 256 → (bit_xor x y ≡ 0) ↔ (x ≡ y)
bit_xor-zero x y hx hy = ground (arith, both-at xor_test xor_passes x y hx hy)

pub bit_or-lt : (x y : ℕ) → x < 256 → y < 256 → bit_or x y < 256
bit_or-lt x y hx hy = ground (arith, both-at or_test or_passes x y hx hy)

pub bit_or-zero : (x y : ℕ) → x < 256 → y < 256 → (bit_or x y ≡ 0) ↔ ((x ≡ 0) × (y ≡ 0))
bit_or-zero x y hx hy = ground (arith, both-at or_test or_passes x y hx hy)

-- The loop of `equal`. Both arrays have `size` elements there; an array that ends before the other
-- counts as a difference.
unfoldable pub difference : ℕ → Bytes → Bytes → ℕ
difference d [] [] = d
difference d [] (y ∷ b) = 1
difference d (x ∷ a) [] = 1
difference d (x ∷ a) (y ∷ b) = difference (bit_or d (bit_xor x y)) a b

unfoldable pub equal : Bytes → Bytes → Bool
equal a b = difference 0 a b == 0

difference_iff :
    (d : ℕ) (a b : Bytes)
    → d < 256
    → IsByteList a
    → IsByteList b
    → (difference d a b ≡ 0) ↔ ((d ≡ 0) × (a ≡ b))
unfolding difference
difference_iff d [] [] hd ha hb = ((λ e. (e, refl)), λ p. p.0)
difference_iff d [] (y ∷ b) hd ha hb = ground arith
difference_iff d (x ∷ a) [] hd ha hb = ground arith
difference_iff d (x ∷ a) (y ∷ b) hd ha hb = ground (
  arith,
  bit_xor-lt x y ha.0 hb.0,
  bit_xor-zero x y ha.0 hb.0,
  bit_or-lt d (bit_xor x y) hd,
  bit_or-zero d (bit_xor x y) hd,
  difference_iff (bit_or d (bit_xor x y)) a b,
)

-- The comparison that looks at every byte decides equality of arrays of bytes.
pub equal_iff : (a b : Bytes) → IsByteList a → IsByteList b → (equal a b ≡ true) ↔ (a ≡ b)
unfolding equal
equal_iff a b ha hb = ground (arith, difference_iff 0 a b (omega arith) ha hb)

-- `size = (size << 8) | header[i]` over the bytes in order. The shift leaves the low byte clear, so
-- `|` adds.
unfoldable pub be32 : ℕ → Bytes → ℕ
be32 acc [] = acc
be32 acc (x ∷ xs) = be32 ((acc * 256 + x) % 2 ^ 32) xs

-- The same from the last byte to the first.
unfoldable pub le32 : Bytes → ℕ
le32 [] = 0
le32 (x ∷ xs) = (le32 xs * 256 + x) % 2 ^ 32
