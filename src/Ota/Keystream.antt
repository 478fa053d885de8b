-- ===== src/Ota/Keystream.antt =====
-- The AES-CTR loop of OtaReceiver::feed (ota_protocol.cpp).
pub mod Ctr
pub mod Counter
use house_panel.Base.{
  ℕ, zero, suc, ◌+◌, ◌*◌, ◌%◌, ◌^◌, ◌<◌, ◌≡◌, refl, Bool, true, false, Option, none, some, List, [],
  ◌∷◌, arith, bit_xor, ◌==◌, if◌then◌else◌, Bytes, length, get_or,
}

-- `_counter`, `_stream` and `_offset`.
pub record Keystream : Type 0 where
  pub counter : Bytes
  pub stream : Bytes
  pub offset : ℕ

-- `for (int j = 15; j >= 0; --j) if (++_counter[j]) break;`: the last byte first, and a byte that
-- comes to 0 carries into the one before it.
carry : Bytes → Bytes × Bool
carry [] = ([], true)
carry (x ∷ xs) =
    let (ys, more) = carry xs in
    if more then ((x + 1) % 256 ∷ ys, (x + 1) % 256 == 0) else (x ∷ ys, false)

unfoldable pub increment : Bytes → Bytes
unfolding carry
increment counter = (carry counter).0

-- A block is encrypted where the offset is 0; `none` is a failing AES call.
unfoldable pub refill : (Bytes → Option Bytes) → Keystream → Option Keystream
refill ecb k =
    if k.offset == 0
    then elim (ecb k.counter) [
      | none ↦ none
      | some block ↦ some (record k { counter = increment k.counter; stream = block })
    ]
    else some k

-- The loop over `data`: whether it came to the end, the keystream, and the array.
unfoldable pub crypt : (Bytes → Option Bytes) → Keystream → Bytes → Bool × Keystream × Bytes
crypt ecb k [] = (true, k, [])
crypt ecb k (x ∷ xs) = elim (refill ecb k) [
  | none ↦ (false, k, x ∷ xs)
  | some k' ↦
      let (ok, last, ys) = crypt ecb (record k' { offset = (k'.offset + 1) % 16 }) xs in
      (ok, last, bit_xor x (get_or k'.stream k'.offset 0) ∷ ys)
]

-- The counter as a number, most significant byte first.
abbrev pub be_value : Bytes → ℕ
be_value [] = 0
be_value (x ∷ xs) = x * 256 ^ length xs + be_value xs
