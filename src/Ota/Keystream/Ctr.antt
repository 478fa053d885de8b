-- ===== src/Ota/Keystream/Ctr.antt =====
-- Counter mode by SP 800-38A, and the AES-CTR loop of OtaReceiver::feed (ota_protocol.cpp) against it.
use house_panel.Base.{
  ℕ, zero, suc, ◌+◌, ◌/◌, ◌%◌, ◌≡◌, ◌≢◌, refl, ap, sym, ◌∙◌, inl, inr, true, false, Option, none,
  some, [], ◌∷◌, ◌++◌, arith, bit_xor, ◌==◌, Bytes, length, get_or, Bool-cases, Option-cases,
}
use mathlib.Core.Path.{subst}
use native.Mathlib.Nat.{add-zero}
use house_panel.Ota.Keystream.{Keystream, increment, refill, crypt}

-- the n-th counter block from `c`
pub advance : ℕ → Bytes → Bytes
advance zero c = c
advance (suc n) c = increment (advance n c)

-- SP 800-38A: byte `n` of the keystream from counter `c`, for the block cipher `enc`.
pub stream_byte : (Bytes → Bytes) → Bytes → ℕ → ℕ
stream_byte enc c n = get_or (enc (advance (n / 16) c)) (n % 16) 0

-- The body from byte `n` on, in counter mode.
unfoldable pub ctr : (Bytes → Bytes) → Bytes → ℕ → Bytes → Bytes
ctr enc c n [] = []
ctr enc c n (x ∷ xs) = bit_xor x (stream_byte enc c n) ∷ ctr enc c (n + 1) xs

-- The keystream state after `n` bytes.
pub record IsAt (enc : Bytes → Bytes) (c : Bytes) (n : ℕ) (k : Keystream) : Type 0 where
  pub offset_is : k.offset ≡ n % 16
  pub counter_is : k.counter ≡ advance ((n + 15) / 16) c
  pub stream_is : n % 16 ≢ 0 → k.stream ≡ enc (advance (n / 16) c)

same_block : {m n : ℕ} (c : Bytes) → m ≡ n → advance m c ≡ advance n c
same_block c e = ap (λ m. advance m c) e

whole : (n : ℕ) → n % 16 == 0 ≡ true → (n + 15) / 16 ≡ n / 16
whole n e = ground (arith)

part : (n : ℕ) → n % 16 == 0 ≡ false → (n + 15) / 16 ≡ suc (n / 16)
part n e = ground arith

within : (n : ℕ) → (n + 1) % 16 ≢ 0 → n / 16 ≡ (n + 1) / 16
within n h = omega arith

module _ (enc : Bytes → Bytes) where
  -- One refill keeps the place and provides the block of byte `n`.
  record Refilled (c : Bytes) (n : ℕ) (k : Keystream) : Type 0 where
    offset_is : k.offset ≡ n % 16
    counter_is : k.counter ≡ advance (suc (n / 16)) c
    stream_is : k.stream ≡ enc (advance (n / 16) c)

  next-IsAt :
      (c : Bytes) (n : ℕ) (k : Keystream)
      → Refilled c n k
      → IsAt enc c (n + 1) (record k { offset = (k.offset + 1) % 16 })
  next-IsAt c n k r = record {
    offset_is = omega (arith, r.offset_is);
    counter_is = r.counter_is ∙ same_block c (omega arith);
    stream_is = λ h. r.stream_is ∙ ap enc (same_block c (within n h));
  }

module _ (enc : Bytes → Bytes) (ecb : Bytes → Option Bytes)
    (works : (b : Bytes) → ecb b ≡ some (enc b)) where
  refill_lem :
      (c : Bytes) (n : ℕ) (k : Keystream)
      → IsAt enc c n k
      → (k' : Keystream) × (refill ecb k ≡ some k') × Refilled enc c n k'
  unfolding refill advance
  refill_lem c n k at = elim (Bool-cases (n % 16 == 0)) [
    | inl e ↦ (
      record k { counter = increment k.counter; stream = enc k.counter },
      ground (arith, works k.counter),
      record {
        offset_is = at.offset_is;
        counter_is = ap increment (at.counter_is ∙ same_block c (whole n e));
        stream_is = ap enc (at.counter_is ∙ same_block c (whole n e));
      },
    )
    | inr e ↦ (
      k,
      ground arith,
      record {
        offset_is = at.offset_is;
        counter_is = at.counter_is ∙ same_block c (part n e);
        stream_is = at.stream_is (ground arith);
      },
    )
  ]

  -- With a block cipher that never fails, the loop of `feed` from byte `n` of the keystream comes
  -- to its end, computes counter mode from byte `n`, and leaves the keystream at the byte after the
  -- last.
  pub crypt-ctr :
      (c : Bytes) (n : ℕ) (k : Keystream) (xs : Bytes)
      → IsAt enc c n k
      → (k' : Keystream) × (crypt ecb k xs ≡ (true, k', ctr enc c n xs))
        × IsAt enc c (n + length xs) k'
  unfolding crypt ctr stream_byte
  crypt-ctr c n k [] at = (
    k,
    refl,
    record {
      offset_is = rw add-zero at.offset_is;
      counter_is = rw add-zero at.counter_is;
      stream_is = rw add-zero at.stream_is;
    },
  )
  crypt-ctr c n k (x ∷ xs) at =
      let (k₁, ready, r) = refill_lem c n k at in
      let (k₂, rest, last) =
        crypt-ctr c (n + 1) (record k₁ { offset = (k₁.offset + 1) % 16 }) xs
          (next-IsAt enc c n k₁ r) in
      (
        k₂,
        rw (ready, crypt, rest, r.stream_is, r.offset_is) refl,
        subst (λ m. IsAt enc c m k₂) (omega arith) last,
      )

-- What a successful call of the block cipher returns.
unfoldable pub block : (Bytes → Option Bytes) → Bytes → Bytes
block ecb b = elim (ecb b) [ none ↦ [] | some o ↦ o ]

module _ (ecb : Bytes → Option Bytes) where
  refill-Refilled :
      (c : Bytes) (n : ℕ) (k k' : Keystream)
      → IsAt (block ecb) c n k
      → refill ecb k ≡ some k'
      → Refilled (block ecb) c n k'
  unfolding refill advance block
  refill-Refilled c n k k' at h = elim (Bool-cases (n % 16 == 0)) [
    | inl e ↦ elim (Option-cases (ecb k.counter)) [
      | inl f ↦ ground (arith, at.offset_is)
      | inr (b, f) ↦
          let here : k.counter ≡ advance (n / 16) c = at.counter_is ∙ same_block c (whole n e) in
          let there : block ecb k.counter ≡ b = ground arith in
          record {
            offset_is = ground arith;
            counter_is =
                let moved : k'.counter ≡ increment k.counter = ground arith in
                moved ∙ ap increment here;
            stream_is =
                let drawn : k'.stream ≡ b = ground arith in drawn ∙ sym there ∙ ap (block ecb) here;
          }
    ]
    | inr e ↦
        let same : k ≡ k' = ground arith in
        subst (Refilled (block ecb) c n) same (record {
          offset_is = at.offset_is;
          counter_is = at.counter_is ∙ same_block c (part n e);
          stream_is = at.stream_is (ground arith);
        })
  ]

  -- Where the loop ends well it has computed counter mode, whatever else a call may do.
  pub crypt_sound :
      (c : Bytes) (n : ℕ) (k k' : Keystream) (xs ys : Bytes)
      → IsAt (block ecb) c n k
      → crypt ecb k xs ≡ (true, k', ys)
      → (ys ≡ ctr (block ecb) c n xs) × IsAt (block ecb) c (n + length xs) k'
  unfolding crypt ctr stream_byte
  crypt_sound c n k k' [] ys at h = (
    ground arith,
    let same : k ≡ k' = ground arith in
        subst (IsAt (block ecb) c (n + 0)) same
          (subst (λ m. IsAt (block ecb) c m k) (sym (add-zero n)) at),
  )
  crypt_sound c n k k' (x ∷ xs) ys at h = elim (Option-cases (refill ecb k)) [
    | inl f ↦ ground arith
    | inr (k₁, f) ↦
        let r = refill-Refilled c n k k₁ at f in
        let out = crypt ecb (record k₁ { offset = (k₁.offset + 1) % 16 }) xs in
        let ran : out ≡ (true, k', out.2) = ground arith in
        let (rest, last) =
          crypt_sound c (n + 1) _ k' xs out.2 (next-IsAt (block ecb) c n k₁ r) ran in
        (
          ground (arith, r.stream_is, r.offset_is),
          subst (λ m. IsAt (block ecb) c m k') (omega arith) last,
        )
  ]

-- Two chunks give what one would.
pub ctr-append :
    (enc : Bytes → Bytes) (c : Bytes) (n : ℕ) (xs ys : Bytes)
    → ctr enc c n (xs ++ ys) ≡ ctr enc c n xs ++ ctr enc c (n + length xs) ys
unfolding ctr
ctr-append enc c n [] ys = ap (λ m. ctr enc c m ys) (sym (add-zero n))
ctr-append enc c n (x ∷ xs) ys = ap (◌∷◌ (bit_xor x (stream_byte enc c n))) (
    ctr-append enc c (n + 1) xs ys ∙ ap (λ m. ctr enc c (n + 1) xs ++ ctr enc c m ys) (omega arith))

pub length-ctr :
    (enc : Bytes → Bytes) (c : Bytes) (n : ℕ) (xs : Bytes) → length (ctr enc c n xs) ≡ length xs
unfolding ctr
length-ctr enc c n [] = refl
length-ctr enc c n (x ∷ xs) = ap suc (length-ctr enc c (n + 1) xs)

-- A keystream with offset 0 stands at the beginning.
pub start-IsAt : (enc : Bytes → Bytes) (k : Keystream) → k.offset ≡ 0 → IsAt enc k.counter 0 k
unfolding advance
start-IsAt enc k e = record { offset_is = e; counter_is = refl; stream_is = λ h. absurd (h refl) }
