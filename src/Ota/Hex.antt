-- ===== src/Ota/Hex.antt =====
-- Hexadecimal text: `hex` and the key loop of OtaReceiver::configure (ota_protocol.cpp), and `to_hex`
-- of ota_update.cpp, which prints nonces, tags and the boot id.
use house_panel.Base.{
  ℕ, ◌+◌, ◌-◌, ◌*◌, ◌/◌, ◌%◌, ◌<◌, ◌≡◌, refl, Bool, true, false, ◌&&◌, Option, none, some, [], ◌∷◌,
  arith, leb, ltb, if◌then◌else◌, Bytes, length, IsByteList,
}

-- -1 is `none`.
unfoldable pub hex : ℕ → Option ℕ
hex c =
    if leb b'0' c && leb c b'9'
    then some (c - b'0')
    else if leb b'a' c && leb c b'f'
    then some (c - b'a' + 10)
    else none

-- `digits[d]`
unfoldable pub hex_digit : ℕ → ℕ
hex_digit d = if ltb d 10 then b'0' + d else b'a' + (d - 10)

unfoldable pub to_hex : Bytes → Bytes
to_hex [] = []
to_hex (x ∷ xs) = hex_digit (x / 16) ∷ hex_digit (x % 16) ∷ to_hex xs

-- The key loop writes `_key` as it goes: it stops at the first pair that is no byte, and leaves the
-- rest of the old key. `(hi << 4) | lo` is a sum, since `lo` has four bits.
unfoldable pub load_key : Bytes → Bytes → Bool × Bytes
load_key [] text = (true, [])
load_key (k ∷ ks) [] = (false, k ∷ ks)
load_key (k ∷ ks) (h ∷ []) = (false, k ∷ ks)
load_key (k ∷ ks) (h ∷ l ∷ text) = elim (hex h) [
  | none ↦ (false, k ∷ ks)
  | some hi ↦ elim (hex l) [
    | none ↦ (false, k ∷ ks)
    | some lo ↦ let (ok, rest) = load_key ks text in (ok, (hi * 16 + lo) ∷ rest)
  ]
]

pub hex-hex_digit : (d : ℕ) → d < 16 → hex (hex_digit d) ≡ some d
unfolding hex hex_digit
hex-hex_digit d h = ground arith

pub hex-lt : (c d : ℕ) → hex c ≡ some d → d < 16
unfolding hex
hex-lt c d h = ground arith

pub length-to_hex : (xs : Bytes) → length (to_hex xs) ≡ 2 * length xs
unfolding to_hex
length-to_hex [] = omega arith
length-to_hex (x ∷ xs) = omega (arith, length-to_hex xs)

-- The key that `configure` reads from the hexadecimal text of a key of bytes is that key, whatever
-- key of the same size was there before.
pub load_key-to_hex :
    (old key : Bytes)
    → length old ≡ length key
    → IsByteList key
    → load_key old (to_hex key) ≡ (true, key)
unfolding load_key to_hex
load_key-to_hex [] [] e b = refl
load_key-to_hex [] (x ∷ xs) e b = absurd (omega arith)
load_key-to_hex (k ∷ ks) [] e b = absurd (omega arith)
load_key-to_hex (k ∷ ks) (x ∷ xs) e b = ground (
  arith,
  hex-hex_digit (x / 16) (omega arith),
  hex-hex_digit (x % 16) (omega arith),
  load_key-to_hex ks xs (omega arith) b.1,
)

-- Whatever is read is bytes, as many as the key has.
pub load_key-IsByteList :
    (old text : Bytes)
    → IsByteList old
    → IsByteList (load_key old text).1 × (length (load_key old text).1 ≡ length old)
unfolding load_key
load_key-IsByteList [] text b = (tt, refl)
load_key-IsByteList (k ∷ ks) [] b = (b, refl)
load_key-IsByteList (k ∷ ks) (h ∷ []) b = (b, refl)
load_key-IsByteList (k ∷ ks) (h ∷ l ∷ text) b =
    grind (arith, hex-lt, load_key-IsByteList ks text b.1)
