-- ===== src/Ota/Keystream/Counter.antt =====
-- The block counter as a number.
use house_panel.Base.{
  ℕ, suc, ◌+◌, ◌*◌, ◌%◌, ◌^◌, ◌<◌, ◌≡◌, refl, ap, inl, inr, Bool, true, false, [], ◌∷◌, arith, ◌==◌,
  if◌then◌else◌, Bytes, length, IsByteList, Bool-cases,
}
use native.Mathlib.Nat.{pow-suc, mod-eq_of_lt, mod_self}
use native.Mathlib.Decide.{dec_lt}
use house_panel.Ota.Keystream.{carry, increment, be_value}

carry_low :
    (x p v w : ℕ)
    → x < 255
    → v + p ≡ w + 1
    → (x + 1) % 256 * p + v + (if (x + 1) % 256 == 0 then p * 256 else 0) ≡ x * p + w + 1
carry_low x p v w h e = let low : (x + 1) % 256 ≡ x + 1 = omega arith in rw low (ground (arith, e))

carry_top : (p v w : ℕ) → v + p ≡ w + 1 → 0 * p + v + p * 256 ≡ 255 * p + w + 1
carry_top p v w e = omega arith

carry_byte :
    (x p v w : ℕ)
    → x < 256
    → v + p ≡ w + 1
    → (x + 1) % 256 * p + v + (if (x + 1) % 256 == 0 then p * 256 else 0) ≡ x * p + w + 1
carry_byte x p v w h e = elim (dec_lt x 255) [
  | yes low ↦ carry_low x p v w low e
  | no top ↦ let top' : x ≡ 255 = omega arith in rw top' (carry_top p v w e)
]

-- `++_counter[j]` with its carries adds one to the counter as a big-endian number, modulo its size.
record Carries (c : Bytes) (r : Bytes × Bool) : Type 0 where
  bytes : IsByteList r.0
  size : length r.0 ≡ length c
  value : be_value r.0 + (if r.1 then 256 ^ length c else 0) ≡ be_value c + 1

carry-Carries : (c : Bytes) → IsByteList c → Carries c (carry c)
unfolding carry
carry-Carries [] b = record { bytes = tt; size = refl; value = refl }
carry-Carries (x ∷ xs) b =
    let ih = carry-Carries xs b.1 in
    elim (Bool-cases (carry xs).1) [
      | inl e ↦
          rw (e, carry)
            (record {
              bytes = (omega arith, ih.bytes);
              size = ap suc ih.size;
              value =
                  rw (ih.size, pow-suc)
                    (carry_byte x (256 ^ length xs) (be_value (carry xs).0) (be_value xs) b.0
                      (rw e at ih.value));
            })
      | inr e ↦
          rw (e, carry)
            (record {
              bytes = (b.0, ih.bytes);
              size = ap suc ih.size;
              value = rw ih.size (omega (arith, rw e at ih.value));
            })
    ]

be_value-lt : (c : Bytes) → IsByteList c → be_value c < 256 ^ length c
be_value-lt [] b = omega arith
be_value-lt (x ∷ xs) b = rw pow-suc (grind (arith, be_value-lt xs b.1))

wrap : (v q p : ℕ) (m : Bool) → q < p → v < p → q + (if m then p else 0) ≡ v + 1 → q ≡ (v + 1) % p
wrap v q p true h k e = let all : v + 1 ≡ p = omega arith in rw (all, mod_self) (omega arith)
wrap v q p false h k e = rw (mod-eq_of_lt {n = v + 1} {m = p} (omega arith)) (omega arith)

-- The counter of bytes advances by one as a big-endian number of its size, and wraps to 0 at its
-- end.
pub be_value-increment :
    (c : Bytes) → IsByteList c → be_value (increment c) ≡ (be_value c + 1) % 256 ^ length c
unfolding increment
be_value-increment c b =
    let r = carry-Carries c b in
    wrap (be_value c) (be_value (carry c).0) (256 ^ length c) (carry c).1
      (rw (← r.size) (be_value-lt _ r.bytes)) (be_value-lt c b) r.value
