-- ===== src/Ota/Receiver.antt =====
-- OtaReceiver (firmware/housepanel-giga/ota_protocol.{h,cpp}): the authenticated update envelope.
-- A method takes the receiver, and the sink's state where it calls the sink, and returns its result
-- and the new states. The library's mbedtls and the sink are parameters.
pub mod Vectors
pub mod Identity
pub mod Begin
pub mod Feed
pub mod Session
pub mod Update
pub mod Replay
pub mod Origin
pub mod Trace
pub mod Accept
pub mod Complete
use Vectors.{vectors_ok}
use Identity.{resume}
use house_panel.Base.{
  ℕ, zero, suc, ◌+◌, ◌-◌, ◌*◌, ◌%◌, ◌^◌, ◌<◌, ◌≡◌, refl, Bool, true, false, not, ◌&&◌, ◌||◌, Option,
  none, some, List, [], ◌∷◌, ◌++◌, bit_or, ltb, leb, ◌==◌, if◌then◌else◌, Bytes, length, take, drop,
  get_or, replicate, bytes_eq,
}
use house_panel.Ota.Bits.{equal, be32}
use house_panel.Ota.Hex.{load_key}
use house_panel.Ota.Crypto.{Crypto, Sink}
use house_panel.Ota.Keystream.{Keystream, crypt}

abbrev pub ota_header_size : ℕ
ota_header_size = 141

abbrev pub ota_max_image : ℕ
ota_max_image = 0x0818_0000 - 0x0804_0000

-- "housepanel-ota-authentication-v1"
abbrev pub auth_label : Bytes
auth_label =
    b'h' ∷ b'o' ∷ b'u' ∷ b's' ∷ b'e' ∷ b'p' ∷ b'a' ∷ b'n' ∷ b'e' ∷ b'l' ∷ b'-' ∷ b'o' ∷ b't' ∷ b'a'
    ∷ b'-' ∷ b'a' ∷ b'u' ∷ b't' ∷ b'h' ∷ b'e' ∷ b'n' ∷ b't' ∷ b'i' ∷ b'c' ∷ b'a' ∷ b't' ∷ b'i'
    ∷ b'o' ∷ b'n' ∷ b'-' ∷ b'v' ∷ b'1' ∷ []

-- "housepanel-ota-encryption-v1"
abbrev pub enc_label : Bytes
enc_label =
    b'h' ∷ b'o' ∷ b'u' ∷ b's' ∷ b'e' ∷ b'p' ∷ b'a' ∷ b'n' ∷ b'e' ∷ b'l' ∷ b'-' ∷ b'o' ∷ b't' ∷ b'a'
    ∷ b'-' ∷ b'e' ∷ b'n' ∷ b'c' ∷ b'r' ∷ b'y' ∷ b'p' ∷ b't' ∷ b'i' ∷ b'o' ∷ b'n' ∷ b'-' ∷ b'v'
    ∷ b'1' ∷ []

-- "HPOTA1U\n"
abbrev pub upload_magic : Bytes
upload_magic = b'H' ∷ b'P' ∷ b'O' ∷ b'T' ∷ b'A' ∷ b'1' ∷ b'U' ∷ 10 ∷ []

-- The private fields. `_sink` is whether a sink is attached, `_vectors` the bytes that `_vector_size`
-- counts, and `_identity` the text without its terminator.
pub record Receiver (c : Crypto) : Type 0 where
  pub key : Bytes
  pub nonce : Bytes
  pub plain_digest : Bytes
  pub wire_digest : Bytes
  pub cipher : Keystream
  pub vectors : Bytes
  pub panel : ℕ
  pub remaining : ℕ
  pub image_size : ℕ
  pub matched : ℕ
  pub identity : Bytes
  pub sink : Bool
  pub configured : Bool
  pub issued : Bool
  pub identity_found : Bool
  pub complete : Bool
  pub aes : c.Aes
  pub plain : c.Sha
  pub wire : c.Sha

-- `any |= _key[i]`
abbrev pub any_of : ℕ → Bytes → ℕ
any_of acc [] = acc
any_of acc (x ∷ xs) = any_of (bit_or acc x) xs

-- The header's fields: the bytes `[from, from + n)`.
abbrev pub slice : ℕ → ℕ → Bytes → Bytes
slice from n header = take n (drop from header)

-- `_vectors` takes what it still lacks of eight bytes.
abbrev pub fill_vectors : Bytes → Bytes → Bytes
fill_vectors vectors image = vectors ++ take (8 - length vectors) image

module _ (c : Crypto) where
  open c use {hmac_sha256, setkey_enc, crypt_ecb, sha_starts, sha_update, sha_finish}

  -- The checks of `configure` before the key is read. `none` is a null pointer.
  accepts_setup : Bytes → ℕ → Bytes → Bool
  accepts_setup key_hex panel identity =
      (length key_hex == 64 && (panel == 1 || panel == 2)) && not (length identity == 0)

  unfoldable pub configure : Receiver c → Option Bytes → ℕ → Option Bytes → Bool × Receiver c
  unfolding load_key accepts_setup
  configure r none panel identity = (false, record r { configured = false })
  configure r (some key_hex) panel none = (false, record r { configured = false })
  configure r (some key_hex) panel (some identity) =
      if accepts_setup key_hex panel identity
      then (let (ok, key') = load_key r.key key_hex in
          if not ok || any_of 0 key' == 0
          then (false, record r { configured = false; key = key' })
          else (
            true,
            record r { configured = true; key = key'; panel = panel; identity = identity },
          ))
      else (false, record r { configured = false })

  unfoldable pub challenge : Receiver c → Bytes → Receiver c
  challenge r nonce = record r { nonce = nonce; issued = r.configured }

  unfoldable pub sign : Receiver c → Bytes → Option Bytes
  sign r text =
      if r.configured
      then elim (hmac_sha256 r.key auth_label) [
        | none ↦ none
        | some auth_key ↦ hmac_sha256 auth_key text
      ]
      else none

  -- The tests of `begin` up to the size.
  unfoldable pub admits : Receiver c → Bytes → Bool
  admits r header =
      not r.sink
      && r.issued
      && bytes_eq (take 8 header) upload_magic
      && get_or header 8 0 == r.panel
      && equal (slice 13 32 header) r.nonce
      && not (ltb (be32 0 (slice 9 4 header)) 256)
      && not (ltb ota_max_image (be32 0 (slice 9 4 header)))

  -- The header's tag, under the key for authentication.
  unfoldable pub authentic : Receiver c → Bytes → Bool
  authentic r header = elim (hmac_sha256 r.key auth_label) [
    | none ↦ false
    | some auth_key ↦ elim (hmac_sha256 auth_key (take (ota_header_size - 32) header)) [
      | none ↦ false
      | some tag ↦ equal tag (slice (ota_header_size - 32) 32 header)
    ]
  ]

  pub session_key : Receiver c → Option c.Aes
  session_key r = elim (hmac_sha256 r.key enc_label) [
    | none ↦ none
    | some enc_key ↦ setkey_enc r.aes enc_key
  ]

  -- The fields that a new session sets from the header.
  unfoldable pub new_session : Receiver c → c.Aes → Bytes → Receiver c
  new_session r aes' header = record r {
    aes = aes';
    cipher = record { counter = take 16 r.nonce; stream = replicate 16 0; offset = 0 };
    plain_digest = slice 45 32 header;
    wire_digest = slice 77 32 header;
    remaining = be32 0 (slice 9 4 header);
    image_size = be32 0 (slice 9 4 header);
    matched = 0;
    vectors = [];
    complete = false;
    identity_found = false;
  }

  -- The search for the identity.
  unfoldable pub search_identity : Receiver c → Bytes → Receiver c
  search_identity r image =
      let (m, found) = resume r.identity r.matched r.identity_found image in
      record r { matched = m; identity_found = found }

module _ (c : Crypto) {S : Type 0} (k : Sink S) where
  open c use {crypt_ecb, sha_starts, sha_update, sha_finish}

  unfoldable pub abort : Receiver c → S → Receiver c × S
  abort r s = (
    record r { sink = false; remaining = 0; complete = false },
    if r.sink then k.discard s else s,
  )

  -- `abort(); return false;`
  unfoldable pub fail : Receiver c → S → Bool × Receiver c × S
  unfolding abort
  fail r s = let (r', s') = abort r s in (false, r', s')

  -- From `_sink = &sink` on.
  attach : Receiver c → S → Bool × Receiver c × S
  unfolding fail
  attach r s =
      let (ok, s') = k.open_sink s in
      if ok then (true, record r { sink = true }, s') else fail (record r { sink = true }) s'

  start_digests : Receiver c → S → Bool × Receiver c × S
  unfolding attach
  start_digests r s = elim (sha_starts r.plain) [
    | none ↦ (false, r, s)
    | some plain' ↦ elim (sha_starts r.wire) [
      | none ↦ (false, record r { plain = plain' }, s)
      | some wire' ↦ attach (record r { plain = plain'; wire = wire' }) s
    ]
  ]

  -- From `_issued = false` on: an authenticated attempt consumes its nonce.
  open_session : Receiver c → S → Bytes → Bool × Receiver c × S
  unfolding session_key new_session start_digests
  open_session r s header = elim (session_key c r) [
    | none ↦ (false, record r { issued = false }, s)
    | some aes' ↦ start_digests (new_session c (record r { issued = false }) aes' header) s
  ]

  unfoldable pub begin : Receiver c → S → Bytes → Bool × Receiver c × S
  unfolding open_session
  begin r s header =
      if admits c r header && authentic c r header then open_session r s header else (false, r, s)

  -- `!_remaining`: the digests, the identity and the sink have the last word, in this order.
  finalize : Receiver c → S → Bool × Receiver c × S
  unfolding fail
  finalize r s = elim (sha_finish r.plain) [
    | none ↦ fail r s
    | some plain' ↦ elim (sha_finish r.wire) [
      | none ↦ fail r s
      | some wire' ↦
          if equal plain' r.plain_digest && equal wire' r.wire_digest && r.identity_found
          then (let (ok, s') = k.finish s in
              if ok then (true, record r { sink = false; complete = true }, s') else fail r s')
          else fail r s
    ]
  ]

  -- `_sink->write(data, size)` and the count of the bytes that are left.
  store : Receiver c → S → Bytes → Bool × Receiver c × S
  unfolding finalize
  store r s image =
      let (ok, s') = k.write image s in
      let r' : Receiver c = record r { remaining = r.remaining - length image } in
      if ok then (if r'.remaining == 0 then finalize r' s' else (true, r', s')) else fail r s'

  inspect : Receiver c → S → Bytes → Bool × Receiver c × S
  unfolding search_identity store
  inspect r s image =
      let r' : Receiver c = record r { vectors = fill_vectors r.vectors image } in
      if length r'.vectors == 8 && not (vectors_ok r'.vectors r'.image_size)
      then fail r' s
      else store (search_identity c r' image) s image

  digest_plain : Receiver c → S → Bytes → Bool × Receiver c × S
  unfolding inspect
  digest_plain r s image = elim (sha_update r.plain image) [
    | none ↦ fail r s
    | some plain' ↦ inspect (record r { plain = plain' }) s image
  ]

  decrypt : Receiver c → S → Bytes → Bool × Receiver c × S
  unfolding digest_plain
  decrypt r s body =
      let (ok, cipher', image) = crypt (crypt_ecb r.aes) r.cipher body in
      if ok
      then digest_plain (record r { cipher = cipher' }) s image
      else fail (record r { cipher = cipher' }) s

  unfoldable pub feed : Receiver c → S → Bytes → Bool × Receiver c × S
  unfolding fail decrypt
  feed r s body =
      if not r.sink || length body == 0 || ltb r.remaining (length body)
      then fail r s
      else elim (sha_update r.wire body) [
        | none ↦ fail r s
        | some wire' ↦ decrypt (record r { wire = wire' }) s body
      ]

-- The member initialisers of OtaReceiver; the constructor only initialises the contexts.
unfoldable pub new_receiver : (c : Crypto) → c.Aes → c.Sha → c.Sha → Receiver c
new_receiver c aes plain wire = record {
  key = replicate 32 0;
  nonce = replicate 32 0;
  plain_digest = replicate 32 0;
  wire_digest = replicate 32 0;
  cipher = record { counter = replicate 16 0; stream = replicate 16 0; offset = 0 };
  vectors = [];
  panel = 0;
  remaining = 0;
  image_size = 0;
  matched = 0;
  identity = [];
  sink = false;
  configured = false;
  issued = false;
  identity_found = false;
  complete = false;
  aes = aes;
  plain = plain;
  wire = wire;
}
