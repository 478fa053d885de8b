-- ===== src/Ota/Server.antt =====
-- firmware/housepanel-giga/ota_update.cpp: the socket server around the receiver. A pass of `ota_loop`
-- reads the network, the clock and the entropy source from `Pass`, and says in `Effect` what it does
-- outside the variables of the file.
pub mod Reply
pub mod Status
pub mod Loop
pub mod Cases
pub mod Valid
pub mod Heading
pub mod Preserve
pub mod Calm
pub mod Install
pub mod Sound
pub mod Tests
use house_panel.Base.{
  ℕ, ◌+◌, ◌-◌, ◌≡◌, Bool, true, false, not, ◌&&◌, ◌||◌, Option, none, some, List, [], ◌∷◌, ◌++◌,
  ◌==◌, if◌then◌else◌, Bytes, length, replicate, codes,
}
use house_panel.Ota.Crypto.{Crypto}
use house_panel.Ota.Receiver.{Receiver, any_of, new_receiver}

pub data AfterReply : Type 0 where
  close_after receive_after install_after : AfterReply

-- The macros of config.h and of the build.
pub record Config : Type 0 where
  pub key_hex : Bytes
  pub panel_id : Bytes
  pub hostname : Bytes
  pub firmware : Bytes
  pub revision : Bytes
  pub interface : Bytes

abbrev pub identity_of : Config → Bytes
identity_of g =
    codes "HousePanel identity:" ++ (g.panel_id ++ (codes ":" ++ (g.hostname ++ codes ":end")))

-- The variables of the file, with the sink's state. `header` is the bytes that `header_size` counts,
-- `reply_buffer` those of `reply_size`, and `peer` whether the pointer is set.
pub record Server (c : Crypto) (S : Type 0) : Type 0 where
  pub receiver : Receiver c
  pub sink : S
  pub peer : Bool
  pub header : Bytes
  pub nonce : Bytes
  pub boot_id : Bytes
  pub nonce_hex : Bytes
  pub ready : Bool
  pub listening : Bool
  pub receiving : Bool
  pub nonce_valid : Bool
  pub querying : Bool
  pub connected_at : ℕ
  pub progress_at : ℕ
  pub challenge_at : ℕ
  pub listen_attempt_at : ℕ
  pub reply_buffer : Bytes
  pub reply_offset : ℕ
  pub reply_started : ℕ
  pub after_reply : AfterReply
  pub reason : Bytes

-- The initialisers.
unfoldable pub new_server : (c : Crypto) {S : Type 0} → c.Aes → c.Sha → c.Sha → S → Server c S
new_server c aes plain wire sink = record {
  receiver = new_receiver c aes plain wire;
  sink = sink;
  peer = false;
  header = [];
  nonce = replicate 32 0;
  boot_id = [];
  nonce_hex = [];
  ready = false;
  listening = false;
  receiving = false;
  nonce_valid = false;
  querying = false;
  connected_at = 0;
  progress_at = 0;
  challenge_at = 0;
  listen_attempt_at = 0;
  reply_buffer = [];
  reply_offset = 0;
  reply_started = 0;
  after_reply = AfterReply.close_after;
  reason = codes "not_initialized";
}

pub data Effect : Type 0 where
  server_open server_close : Effect
  peer_close : Effect
  peer_send : Bytes → Effect
  -- `updater.update()`, which hands the staged image to the bootloader, and `updater.reset()`
  update reset : Effect

-- What `accept`, `send` and `recv` return. A failing `accept` returns no socket; 0 bytes and a count below 0
-- are failures of the others.
pub data Accepted : Type 0 where
  accepted would_block_accept failed_accept null_accept : Accepted

pub data Sent : Type 0 where
  would_block_send failed_send : Sent
  sent : ℕ → Sent

pub data Received : Type 0 where
  would_block_recv failed_recv : Received
  received : Bytes → Received

-- trng_get_bytes: its result, how many bytes it says, and the bytes.
pub record Entropy : Type 0 where
  pub ok : Bool
  pub actual : ℕ
  pub bytes : Bytes

-- `random_bytes`: the array that it fills. What is left in the array where it fails is never read.
unfoldable pub random_bytes : Entropy → ℕ → Option Bytes
random_bytes e size =
    if not e.ok || not (e.actual == size)
    then none
    else if any_of 0 e.bytes == 0
    then none
    else some e.bytes

-- What one pass reads, each clock at its place.
pub record Pass : Type 0 where
  pub wifi_connected : Bool
  pub listen_now : ℕ
  pub listen_at : ℕ
  pub opened : Bool
  pub bound : Bool
  pub listens : Bool
  pub accept : Accepted
  pub accepted_at : ℕ
  pub now : ℕ
  pub flush_now : ℕ
  pub send : Sent
  pub flushed_at : ℕ
  pub recv : Received
  pub entropy : Entropy
  pub challenged_at : ℕ
  pub reply_at : ℕ
  pub updated : Bool
