-- ===== src/Ota/Server/Sound.antt =====
-- A run of ota_update.cpp from power-up: `ota_init`, then `ota_loop` over and over.
use mathlib.Core.Path.{subst}
use house_panel.Base.{
  ◌*◌, ℕ, ◌+◌, ◌≡◌, ◌==◌, refl, ap, sym, Bool, true, false, not, ◌&&◌, ◌||◌, some, List, [], ◌∷◌,
  arith, Bytes, length, if_both, if_cases, option_both, IsByteList,
}
use house_panel.Ota.Crypto.{Crypto, Sink}
use house_panel.Ota.Hex.{load_key, to_hex}
use house_panel.Ota.Receiver.{Receiver, new_receiver, configure, any_of}
use house_panel.Ota.Receiver.Session.{Hashes, Stores}
use house_panel.Ota.Receiver.Origin.{in_use}
use house_panel.Ota.Receiver.Trace.{owner-Traced, Authorized, Traced-Authorized}
use house_panel.Ota.Server.{
  Server, Config, Pass, Entropy, Sent, identity_of, new_server, random_bytes,
}
use house_panel.Ota.Server.Status.{Storage, panel_of, check_storage, ota_init}
use house_panel.Ota.Server.Loop.{ota_loop}
use house_panel.Ota.Server.Valid.{IsValid}
use house_panel.Ota.Server.Preserve.{HasBytes, ota_loop-IsValid}
use house_panel.Ota.Server.Calm.{has_update}
use house_panel.Ota.Server.Install.{ota_loop-Handed}

abbrev pub AllHaveBytes : List Pass → Type 0
AllHaveBytes [] = Unit {0}
AllHaveBytes (i ∷ passes) = HasBytes i × AllHaveBytes passes

pair_eq : {A : Type 0} (q : Bool × A) (a : A) → q.0 ≡ true → a ≡ q.1 → q ≡ (true, a)
pair_eq q a e f = cc (e, f)

module _ (c : Crypto) {S : Type 0} (k : Sink S) (g : Config) where
  -- The state after the passes.
  unfoldable pub run : List Pass → Server c S → Server c S
  run [] s = s
  run (i ∷ passes) s = run passes (ota_loop c k g s i).0

  run-IsValid :
      (o : Receiver c) (passes : List Pass) (s : Server c S)
      → AllHaveBytes passes
      → IsValid c k o s
      → IsValid c k o (run passes s)
  unfolding run
  run-IsValid o [] s bs v = v
  run-IsValid o (i ∷ passes) s bs v =
      run-IsValid o passes (ota_loop c k g s i).0 bs.1 (ota_loop-IsValid c k o g s i bs.0 v)

  -- The state that the first pass finds.
  unfoldable pub booted : c.Aes → c.Sha → c.Sha → S → Entropy → Storage → Server c S
  booted aes plain wire t e d = ota_init c g (new_server c aes plain wire t) e d

  configure-in_use :
      (r : Receiver c) (key_hex identity : Bytes) (panel : ℕ)
      → in_use c (configure c r (some key_hex) panel (some identity)).1 ≡ in_use c r
  unfolding configure
  configure-in_use r key_hex identity panel =
      if_both (λ (q : Bool × Receiver c). in_use c q.1 ≡ in_use c r)
        ((length key_hex == 64 && (panel == 1 || panel == 2)) && not (length identity == 0)) _ _
        (if_both (λ (q : Bool × Receiver c). in_use c q.1 ≡ in_use c r)
          (not (load_key r.key key_hex).0 || any_of 0 (load_key r.key key_hex).1 == 0) _ _ refl
          refl)
        refl

  -- The configuration of the receiver of `s`.
  setup : Server c S → Bool × Receiver c
  setup s = configure c s.receiver (some g.key_hex) (panel_of g.panel_id) (some (identity_of g))

  -- What `ota_init` sets, and when it ends with `ready`.
  record Started (s t : Server c S) : Type 0 where
    rest : t ≡ record s {
      receiver = (setup s).1;
      boot_id = t.boot_id;
      ready = t.ready;
      reason = t.reason;
    }
    configured : s.ready ≡ false → t.ready ≡ true → (setup s).0 ≡ true

  check_storage-Started :
      (s : Server c S) (boot : Bytes) (d : Storage)
      → (setup s).0 ≡ true
      → Started s (check_storage c g (record s { receiver = (setup s).1; boot_id = boot }) d)
  unfolding check_storage
  check_storage-Started s boot d h =
      if_both (Started s) (not d.ota_capable) _ _ (record { rest = refl; configured = λ a b. h })
        (if_both (Started s) (not d.partition_ready) _ _
          (record { rest = refl; configured = λ a b. h })
          (if_both (Started s)
            (not (d.start == 1024 * 1024 && d.stop == 6 * 1024 * 1024 && d.kind == 0x0b)) _ _
            (record { rest = refl; configured = λ a b. h })
            (if_both (Started s) (not d.mounted) _ _ (record { rest = refl; configured = λ a b. h })
              (record { rest = refl; configured = λ a b. h }))))

  ota_init-Started : (s : Server c S) (e : Entropy) (d : Storage) → Started s (ota_init c g s e d)
  unfolding ota_init setup
  ota_init-Started s e d =
      if_cases (Started s) (not (setup s).0) _ _
        (λ f. record { rest = refl; configured = λ a b. cc (a, b) })
        (λ f.
          option_both (Started s) (random_bytes e 16) _ _
            (record { rest = refl; configured = λ a b. cc (a, b) })
            λ boot. check_storage-Started s (to_hex boot) d (ground (arith, f)))

  -- Nothing has happened.
  fresh-IsValid :
      (s : Server c S)
      → s.header ≡ []
      → s.reply_buffer ≡ []
      → s.receiving ≡ false
      → in_use c s.receiver ≡ false
      → IsValid c k s.receiver s
  fresh-IsValid s no_header no_reply idle off =
      let no_bytes : length s.reply_buffer ≡ 0 = ap length no_reply in
      let none_yet : length s.header ≡ 0 = ap length no_header in
      record {
        header_fits = omega (arith, none_yet);
        header_room = λ e f. omega (arith, none_yet);
        reply_fits = omega (arith, no_bytes);
        reply_left = λ e. absurd (e no_bytes);
        installs = λ e. absurd (e no_bytes);
        resumes = λ e. absurd (e no_bytes);
        clean_header = λ e. none_yet;
        clean_reply = λ e. no_bytes;
        clean_body = λ e. idle;
        no_session = λ e. off;
        header_bytes = subst IsByteList (sym no_header) tt;
        traced = owner-Traced c k s.receiver s.sink off;
      }

  booted-IsValid :
      (aes : c.Aes) (plain wire : c.Sha) (t : S) (e : Entropy) (d : Storage)
      → IsValid c k (booted aes plain wire t e d).receiver (booted aes plain wire t e d)
  unfolding booted new_server new_receiver setup
  booted-IsValid aes plain wire t e d =
      let s = new_server c aes plain wire t in
      let b = ota_init-Started s e d in
      subst (λ u. IsValid c k u.receiver u) (sym b.rest)
        (fresh-IsValid _ refl refl refl
          (configure-in_use s.receiver g.key_hex (identity_of g) (panel_of g.panel_id)))

  -- From power-up, after any passes, whatever the network, the clock and the entropy source do, the
  -- header and the reply are within their arrays of 141 and 640 bytes, and while the header is read it
  -- has room for a byte; a pending reply has bytes left to send, one that installs stands for a complete
  -- update, and one that goes on with the body for an authorized client; without a client no header, reply
  -- or body is left of the one before; without authorization the receiver has no sink attached and no
  -- complete update; and what the receiver holds comes from an accepted header and accepted chunks under
  -- the key, the panel and the identity that `ota_init` has set. The network is assumed to deliver bytes.
  pub run-booted-IsValid :
      (aes : c.Aes) (plain wire : c.Sha) (t : S) (e : Entropy) (d : Storage) (passes : List Pass)
      → AllHaveBytes passes
      → IsValid c k
          (booted aes plain wire t e d).receiver
          (run passes (booted aes plain wire t e d))
  run-booted-IsValid aes plain wire t e d passes bs =
      run-IsValid _ passes _ bs (booted-IsValid aes plain wire t e d)

  booted-configured :
      (aes : c.Aes) (plain wire : c.Sha) (t : S) (e : Entropy) (d : Storage)
      → (booted aes plain wire t e d).ready ≡ true
      → configure c
          (new_receiver c aes plain wire)
          (some g.key_hex)
          (panel_of g.panel_id)
          (some (identity_of g))
        ≡ (true, (booted aes plain wire t e d).receiver)
  unfolding booted new_server setup
  booted-configured aes plain wire t e d ready =
      let s = new_server c aes plain wire t in
      let b = ota_init-Started s e d in
      pair_eq (setup s) _ (b.configured refl ready) (ap (λ (u : Server c S). u.receiver) b.rest)

  configure-identity :
      (r r' : Receiver c) (key_hex identity : Bytes) (panel : ℕ)
      → configure c r (some key_hex) panel (some identity) ≡ (true, r')
      → r'.identity ≡ identity
  unfolding configure
  configure-identity r r' key_hex identity panel e = ground (arith, e)

module _ (c : Crypto) {S : Type 0} (k : Sink S) (h : Hashes c) (p : Stores k) (g : Config) where
  -- If a pass, after any run from a successful `ota_init`, calls the updater, then the configuration was
  -- accepted by the receiver, the pass has sent the last byte of the pending reply, and
  -- what the sink then holds has been authorized under that configuration: an admitted header with an
  -- authentic tag, and an image that the sink has published and that has the header's size and digests, a
  -- bootable vector table, and the panel's identity. The network is assumed to deliver bytes, and SHA-256
  -- in pieces and the sink to keep what they are given.
  pub install_sound :
      (aes : c.Aes) (plain wire : c.Sha) (t : S) (e : Entropy) (d : Storage) (passes : List Pass)
      (i : Pass)
      → AllHaveBytes passes
      → (booted c k g aes plain wire t e d).ready ≡ true
      → (let s = run c k g passes (booted c k g aes plain wire t e d) in
          has_update (ota_loop c k g s i).1 ≡ true)
      → (let o = (booted c k g aes plain wire t e d).receiver in
          let s = run c k g passes (booted c k g aes plain wire t e d) in
          (configure c
              (new_receiver c aes plain wire)
              (some g.key_hex)
              (panel_of g.panel_id)
              (some (identity_of g))
            ≡ (true, o))
          × ((n : ℕ) × (i.send ≡ Sent.sent n) × (s.reply_offset + n ≡ length s.reply_buffer))
          × Authorized c k h p o (ota_loop c k g s i).0.sink)
  install_sound aes plain wire t e d passes i bs ready update =
      let b = booted c k g aes plain wire t e d in
      let s = run c k g passes b in
      let v = run-booted-IsValid c k g aes plain wire t e d passes bs in
      let f = ota_loop-Handed c k g s i update in
      let done = v.installs f.pending f.installs in
      let conf = booted-configured c k g aes plain wire t e d ready in
      (
        conf,
        (f.count, f.sent_is, f.all_sent),
        subst (Authorized c k h p b.receiver) (sym (f.sink_is v.traced.apart done)) (
            Traced-Authorized c k h p b.receiver s.receiver s.sink
              (λ u. cc (
                configure-identity c k g _ _ g.key_hex (identity_of g) (panel_of g.panel_id) conf,
                u,
              ))
              v.traced done),
      )
