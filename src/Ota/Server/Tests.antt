-- ===== src/Ota/Server/Tests.antt =====
-- A run of ota_update.cpp with a toy mbedtls and a toy volume: the status, the upload, and the passes
-- up to the installation.
use mathlib.Core.Path.{subst}
use house_panel.Base.{
  ◌⊎◌, every, ℕ, ◌+◌, ◌*◌, ◌≡◌, refl, true, false, some, List, [], ◌∷◌, ltb, ◌++◌, codes, Bytes,
  length, take, drop, replicate, IsByteList, every-IsByteList,
}
use house_panel.Ota.Crypto.{Sink}
use house_panel.Ota.FileSink.{FileSink, begin_file, write_file, finish_file, abort_file, file_sink}
use house_panel.Ota.FileSink.Staging.{file_sink_stores, staged_kept}
use house_panel.Ota.Toy.{toy, toy_hashes, Drive, drive, drive_volume, drive_separate}
use house_panel.Ota.Receiver.{Receiver, new_receiver, configure}
use house_panel.Ota.Server.{
  Server, Config, Pass, Effect, Entropy, Accepted, Sent, Received, identity_of,
}
use house_panel.Ota.Server.Status.{Storage}
use house_panel.Ota.Server.Loop.{ota_loop}
use house_panel.Ota.Receiver.Trace.{Authorized}
use house_panel.Ota.Server.Valid.{IsValid}
use house_panel.Ota.Server.Preserve.{HasBytes}
use house_panel.Ota.Server.Sound.{AllHaveBytes, run, booted, run-booted-IsValid, install_sound}

abbrev upload : Bytes
upload =
    codes "HPOTA1U\n"
    ++ ((2 ∷ 0 ∷ 0 ∷ 1 ∷ 0 ∷ [])
        ++ (replicate 32 1 ++ (replicate 32 208 ++ (replicate 32 202 ++ (replicate 32 22)))))

abbrev body : Bytes
body =
    (72 ∷ 72 ∷ 64 ∷ 108 ∷ 65 ∷ 72 ∷ 76 ∷ 64 ∷ 0 ∷ 39 ∷ 61 ∷ 59 ∷ 45 ∷ 24 ∷ 41 ∷ 38 ∷ 44 ∷ 37 ∷ 105
      ∷ 32 ∷ 45 ∷ 44 ∷ 39 ∷ 61 ∷ 32 ∷ 61 ∷ 48 ∷ 115 ∷ 57 ∷ 40 ∷ 39 ∷ 44 ∷ 38 ∷ 103 ∷ 120 ∷ 112 ∷ 46
      ∷ 47 ∷ 36 ∷ 112 ∷ 47 ∷ 36 ∷ 46 ∷ [])
    ++ (replicate 5 73
        ++ (replicate 16 72
            ++ (replicate 16 79
                ++ (replicate 16 78
                    ++ (replicate 16 77
                        ++ (replicate 16 76
                            ++ (replicate 16 83
                                ++ (replicate 16 82
                                    ++ (replicate 16 81
                                        ++ (replicate 16 80
                                            ++ (replicate 16 87
                                                ++ (replicate 16 86
                                                    ++ (replicate 16 85
                                                        ++ (replicate 16 84))))))))))))))

abbrev panel : Config
panel = record {
  key_hex = codes "2a2a2a2a2a2a2a2a2a2a2a2a2a2a2a2a2a2a2a2a2a2a2a2a2a2a2a2a2a2a2a2a";
  panel_id = codes "panel-2";
  hostname = codes "den";
  firmware = codes "1.0";
  revision = codes "abc";
  interface = codes "ui";
}

abbrev entropy : ℕ → Entropy
entropy n = record { ok = true; actual = n; bytes = replicate n 1 }

abbrev storage : Storage
storage = record {
  ota_capable = true;
  partition_ready = true;
  start = 1024 * 1024;
  stop = 6 * 1024 * 1024;
  kind = 11;
  mounted = true;
}

-- A pass 50 ms after power-up.
abbrev pass : Received → ℕ → Pass
pass chunk count = record {
  wifi_connected = true;
  listen_now = 50;
  listen_at = 50;
  opened = true;
  bound = true;
  listens = true;
  accept = Accepted.accepted;
  accepted_at = 50;
  now = 50;
  flush_now = 50;
  send = Sent.sent count;
  flushed_at = 50;
  recv = chunk;
  entropy = entropy 32;
  challenged_at = 50;
  reply_at = 50;
  updated = true;
}

abbrev sends : ℕ → Pass
sends n = pass Received.would_block_recv n

abbrev receives : Bytes → Pass
receives chunk = pass (Received.received chunk) 0

abbrev empty_drive : FileSink Drive
empty_drive = record { file = false; volume = record { part = []; bin = [] } }

abbrev sink : Sink (FileSink Drive)
sink = file_sink drive

-- The status is asked for and sent, the upload announced, and its body received.
abbrev session : List Pass
session =
    receives (codes "HPOTA1S\n" ++ replicate 32 7)
    ∷ sends 455
    ∷ receives (take 60 upload)
    ∷ receives (drop 60 upload)
    ∷ sends 18
    ∷ receives (take 100 body)
    ∷ receives (drop 100 body)
    ∷ []

-- "{\"ok\":true}\n" goes out.
abbrev last : Pass
last = sends 12

chunk_of : Received → Bytes
chunk_of Received.would_block_recv = []
chunk_of Received.failed_recv = []
chunk_of (Received.received chunk) = chunk

pass-HasBytes : (w : Received) (n : ℕ) → IsByteList (chunk_of w) → HasBytes (pass w n)
unfolding chunk_of
pass-HasBytes w n h chunk e = subst (λ u. IsByteList (chunk_of u)) e h

receives-HasBytes :
    (chunk : Bytes) → every (λ b. ltb b 256) chunk ≡ true → HasBytes (receives chunk)
unfolding chunk_of
receives-HasBytes chunk h = pass-HasBytes (Received.received chunk) 0 (every-IsByteList chunk h)

sends-HasBytes : (n : ℕ) → HasBytes (sends n)
unfolding chunk_of
sends-HasBytes n = pass-HasBytes Received.would_block_recv n tt

session-HasBytes : AllHaveBytes session
session-HasBytes = (
  receives-HasBytes (codes "HPOTA1S\n" ++ replicate 32 7) refl,
  (
    sends-HasBytes 455,
    (
      receives-HasBytes (take 60 upload) refl,
      (
        receives-HasBytes (drop 60 upload) refl,
        (
          sends-HasBytes 18,
          (receives-HasBytes (take 100 body) refl, (receives-HasBytes (drop 100 body) refl, tt)),
        ),
      ),
    ),
  ),
)

run-booted-IsValid_example :
    IsValid toy sink
      (booted toy sink panel 0 [] [] empty_drive (entropy 16) storage).receiver
      (run toy sink panel session (booted toy sink panel 0 [] [] empty_drive (entropy 16) storage))
run-booted-IsValid_example =
    run-booted-IsValid toy sink panel 0 [] [] empty_drive (entropy 16) storage session
      session-HasBytes

install_sound_example :
    (let b = booted toy sink panel 0 [] [] empty_drive (entropy 16) storage in
      let s = run toy sink panel session b in
      (configure toy (new_receiver toy 0 [] []) (some panel.key_hex) 2 (some (identity_of panel))
        ≡ (true, b.receiver))
      × ((n : ℕ) × (last.send ≡ Sent.sent n) × (s.reply_offset + n ≡ length s.reply_buffer))
      × Authorized toy sink toy_hashes
          (file_sink_stores drive drive_volume)
          b.receiver
          (ota_loop toy sink panel s last).0.sink)
unfolding ota_loop run booted house_panel.Ota.Hex.to_hex house_panel.Ota.Hex.load_key
    house_panel.Ota.Hex.hex house_panel.Ota.Hex.hex_digit house_panel.Ota.Toy.checksum new_receiver
    house_panel.Ota.Server.new_server house_panel.Ota.Server.Status.ota_init configure
    house_panel.Ota.Server.random_bytes house_panel.Ota.Server.Loop.receive
    house_panel.Ota.Server.Status.status house_panel.Ota.Receiver.sign
    house_panel.Ota.Server.Reply.reply house_panel.Ota.Server.Reply.flush_reply
    house_panel.Ota.Server.Loop.authorize house_panel.Ota.Receiver.begin
    house_panel.Ota.Receiver.admits house_panel.Ota.Bits.equal house_panel.Ota.Bits.difference
    house_panel.Ota.Bits.be32 house_panel.Ota.Receiver.authentic begin_file write_file finish_file
    house_panel.Ota.Receiver.feed house_panel.Ota.Keystream.crypt house_panel.Ota.Keystream.refill
    house_panel.Ota.Receiver.Vectors.vectors_ok house_panel.Ota.Bits.le32
    house_panel.Ota.Keystream.increment house_panel.Ota.Receiver.Identity.advance_match
    house_panel.Ota.Receiver.Identity.resume house_panel.Ota.Receiver.Identity.scan
    house_panel.Ota.Receiver.abort house_panel.Ota.Receiver.challenge house_panel.Ota.Receiver.fail
    house_panel.Ota.Receiver.new_session house_panel.Ota.Receiver.search_identity
    house_panel.Ota.Server.Loop.accept_failed house_panel.Ota.Server.Loop.converse
    house_panel.Ota.Server.Loop.disconnect house_panel.Ota.Server.Loop.feed_body
    house_panel.Ota.Server.Loop.listen house_panel.Ota.Server.Loop.read_header
    house_panel.Ota.Server.Loop.serve house_panel.Ota.Server.Loop.take_byte
    house_panel.Ota.Server.Reply.advance_reply house_panel.Ota.Server.Reply.close_peer
    house_panel.Ota.Server.Reply.end_reply house_panel.Ota.Server.Status.answer
    house_panel.Ota.Server.Status.check_storage house_panel.Ota.Server.Status.renew
    house_panel.Ota.Server.Status.response house_panel.Ota.Server.Status.response_text
install_sound_example =
    install_sound toy sink toy_hashes (file_sink_stores drive drive_volume) panel 0 [] []
      empty_drive (entropy 16) storage session last session-HasBytes refl refl

abbrev staged : FileSink Drive
staged = record { file = true; volume = record { part = 1 ∷ 2 ∷ []; bin = 9 ∷ 9 ∷ [] } }

staged_kept_example :
    (begin_file drive staged).1.volume.bin ≡ (9 ∷ 9 ∷ [])
    × ((write_file drive (3 ∷ []) staged).1.volume.bin ≡ (9 ∷ 9 ∷ []))
    × ((abort_file drive staged).volume.bin ≡ (9 ∷ 9 ∷ []))
    × ((true ≡ false) ⊎ (true ≡ false) ⊎ (true ≡ false)
        → ((finish_file drive staged).0 ≡ false)
          × ((finish_file drive staged).1.volume.bin ≡ (9 ∷ 9 ∷ [])))
staged_kept_example =
    staged_kept drive (λ s xs. s.bin ≡ xs) drive_separate staged (9 ∷ 9 ∷ []) (3 ∷ []) refl
