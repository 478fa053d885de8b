-- ===== src/Ota/Toy.antt =====
-- Stand-ins for what the update code calls: a small mbedtls, a sink that keeps what it is given, and a
-- volume of two files.
use house_panel.Base.{
  ℕ, zero, suc, ◌+◌, ◌%◌, ◌<◌, ◌≡◌, sym, ap, ◌∙◌, Bool, true, some, [], ◌∷◌, ◌++◌, arith, Bytes,
  get_or, length, replicate, IsByteList,
}
use house_panel.Ota.Crypto.{Crypto, Sink}
use house_panel.Ota.FileSink.{Files, Removal}
use house_panel.Ota.FileSink.Staging.{Volume, Separate}
use house_panel.Ota.Receiver.Session.{Hashes, Stores}

-- A digest that depends on every byte.
unfoldable pub checksum : ℕ → Bytes → ℕ
checksum a [] = a
checksum a (x ∷ xs) = checksum ((a + x) % 256) xs

abbrev pub toy_digest : Bytes → Bytes
toy_digest xs = replicate 32 (checksum 7 xs)

abbrev pub toy : Crypto
toy = record {
  Sha = Bytes;
  Aes = ℕ;
  hmac_sha256 = λ key text. some (toy_digest (key ++ text));
  setkey_enc = λ old key. some (get_or key 0 0);
  crypt_ecb = λ key block. some (replicate 16 (checksum key block));
  sha_starts = λ h. some [];
  sha_update = λ h xs. some (h ++ xs);
  sha_finish = λ h. some (toy_digest h);
}

abbrev pub memory : Sink Bytes
memory = record {
  open_sink = λ s. (true, []);
  write = λ xs s. (true, s ++ xs);
  finish = λ s. (true, s);
  discard = λ s. [];
}

pub checksum-lt : (a : ℕ) (xs : Bytes) → a < 256 → checksum a xs < 256
unfolding checksum
checksum-lt a [] h = h
checksum-lt a (x ∷ xs) h = checksum-lt ((a + x) % 256) xs (omega arith)

pub replicate-IsByteList : (n x : ℕ) → x < 256 → IsByteList (replicate n x)
replicate-IsByteList zero x h = tt
replicate-IsByteList (suc n) x h = (h, replicate-IsByteList n x h)

pub some_eq : {A : Type 0} {a b : A} → some a ≡ some b → a ≡ b
some_eq e = ground (arith, e)

abbrev pub toy_hashes : Hashes toy
toy_hashes = record {
  Absorbed = λ h xs. h ≡ xs;
  digest = toy_digest;
  digest-IsByteList =
      λ xs. replicate-IsByteList 32 (checksum 7 xs) (checksum-lt 7 xs (omega arith));
  starts_lem = λ h h' e. sym (some_eq e);
  update_lem = λ h h' xs ys a e. sym (some_eq e) ∙ ap (λ b. b ++ ys) a;
  finish_lem = λ h xs out a e. sym (some_eq e) ∙ ap toy_digest a;
}

abbrev pub memory_stores : Stores memory
memory_stores = record {
  Holds = λ s xs. s ≡ xs;
  Published = λ s xs. s ≡ xs;
  open_lem = λ s t e. sym (ap (λ (q : Bool × Bytes). q.1) e);
  write_lem = λ s t xs ys h e. sym (ap (λ (q : Bool × Bytes). q.1) e) ∙ ap (λ b. b ++ ys) h;
  finish_lem = λ s t xs h e. sym (ap (λ (q : Bool × Bytes). q.1) e) ∙ h;
}

pub record Drive : Type 0 where
  pub part : Bytes
  pub bin : Bytes

abbrev pub drive : Files Drive
drive = record {
  fopen = λ s. (true, record s { part = [] });
  fwrite = λ xs s. (length xs, record s { part = s.part ++ xs });
  fflush = λ s. (true, s);
  fclose = λ s. (true, s);
  remove_bin = λ s. (Removal.removed, record s { bin = [] });
  remove_part = λ s. record s { part = [] };
  rename = λ s. (true, record { part = []; bin = s.part });
}

pub snd_eq : {A B : Type 0} {a a' : A} {b b' : B} → Path (A × B) (a, b) (a', b') → b ≡ b'
snd_eq e = ap (λ (q : _ × _). q.1) e

abbrev pub drive_volume : Volume drive
drive_volume = record {
  Part = λ s xs. s.part ≡ xs;
  Closed = λ s xs. s.part ≡ xs;
  Staged = λ s xs. s.bin ≡ xs;
  fopen_lem = λ s t e. ap (λ (u : Drive). u.part) (sym (snd_eq e));
  fwrite_lem = λ s t xs ys h e. ap (λ (u : Drive). u.part) (sym (snd_eq e)) ∙ ap (λ b. b ++ ys) h;
  fflush_lem = λ s t xs h e. ap (λ (u : Drive). u.part) (sym (snd_eq e)) ∙ h;
  fclose_lem = λ s t xs h e. ap (λ (u : Drive). u.part) (sym (snd_eq e)) ∙ h;
  removed_lem = λ s t xs h e. ap (λ (u : Drive). u.part) (sym (snd_eq e)) ∙ h;
  missing_lem = λ s t xs h e. ap (λ (u : Drive). u.part) (sym (snd_eq e)) ∙ h;
  rename_lem = λ s t xs h e. ap (λ (u : Drive). u.bin) (sym (snd_eq e)) ∙ h;
}

abbrev pub drive_separate : Separate drive (λ s xs. s.bin ≡ xs)
drive_separate = record {
  fopen_keeps = λ s xs h. h;
  fwrite_keeps = λ s ys xs h. h;
  fflush_keeps = λ s xs h. h;
  fclose_keeps = λ s xs h. h;
  remove_part_keeps = λ s xs h. h;
}
