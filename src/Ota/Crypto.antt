-- ===== src/Ota/Crypto.antt =====
-- What the update code calls and does not implement: mbedtls (HMAC-SHA256, AES and SHA-256), and
-- the abstract class OtaSink of ota_protocol.h, as the operations that a session makes of it.
use house_panel.Base.{Bool, Option, Bytes}

-- `none` is a return code other than 0. A context that a failing call leaves undefined keeps its old
-- value here: the receiver starts its contexts anew before it reads them.
pub record Crypto : Type 1 where
  pub Sha : Type 0
  pub Aes : Type 0
  pub hmac_sha256 : Bytes → Bytes → Option Bytes
  pub setkey_enc : Aes → Bytes → Option Aes
  pub crypt_ecb : Aes → Bytes → Option Bytes
  pub sha_starts : Sha → Option Sha
  pub sha_update : Sha → Bytes → Option Sha
  pub sha_finish : Sha → Option Bytes

-- A sink of state `S`. A virtual method returns its result and the new state.
pub record Sink (S : Type 0) : Type 0 where
  pub open_sink : S → Bool × S
  pub write : Bytes → S → Bool × S
  pub finish : S → Bool × S
  pub discard : S → S
