-- ===== src/Ota/Tests.antt =====
-- Runs of the update code at concrete inputs, with a small stand-in for mbedtls and a sink that keeps
-- what it is given.
use mathlib.Core.List.{flatten}
use house_panel.Base.{
  ℕ, ◌+◌, ◌%◌, ◌^◌, ◌≡◌, ◌≢◌, refl, sym, ap, ◌∙◌, ◌↔◌, Bool, true, false, some, [], ◌∷◌, ltb, ◌&&◌,
  ◌++◌, arith, Bytes, length, take, replicate, IsByteList,
}
use house_panel.Ota.Bits.{equal, equal_iff, be32}
use house_panel.Ota.Hex.{to_hex, load_key, load_key-to_hex}
use house_panel.Ota.Keystream.{Keystream, increment, refill, crypt, be_value}
use house_panel.Ota.Keystream.Ctr.{ctr, block, crypt-ctr, IsAt, start-IsAt}
use house_panel.Ota.Keystream.Counter.{be_value-increment}
use house_panel.Ota.Receiver.{
  Receiver, auth_label, enc_label, upload_magic, slice, new_receiver, configure, challenge,
  authentic, session_key, begin, feed,
}
use house_panel.Ota.Receiver.Vectors.{vectors_ok, IsBootable, vectors_ok-IsBootable}
use house_panel.Ota.Receiver.Identity.{scan}
use house_panel.Ota.Receiver.Identity.Search.{Occurs, scan_sound, scan_complete}
use house_panel.Ota.Receiver.Begin.{Admitted}
use house_panel.Ota.Receiver.Session.{image_of}
use house_panel.Ota.Receiver.Replay.{Settled, feed-Settled, begin_once}
use house_panel.Ota.Receiver.Accept.{Works}
use house_panel.Ota.Receiver.Complete.{Completes, update_complete}
use house_panel.Ota.Receiver.Update.{feed_all, Installed, update_sound}
use house_panel.Ota.Toy.{checksum, toy_digest, toy, memory, toy_hashes, memory_stores}

abbrev key : Bytes
key = replicate 31 0x2a ++ (0xc4 ∷ [])

abbrev nonce : Bytes
nonce = replicate 15 0xff ++ replicate 17 0xfe

abbrev name : Bytes
name = b'p' ∷ b'a' ∷ b'n' ∷ b'e' ∷ b'l' ∷ b'2' ∷ []

abbrev fresh : Receiver toy
fresh = new_receiver toy 0 [] []

-- The block cipher of the session.
abbrev session_block : Bytes → Bytes
session_block b = replicate 16 (checksum 210 b)

-- A challenged receiver of panel 2.
abbrev ready : Receiver toy
ready = record fresh {
  key = key;
  nonce = nonce;
  panel = 2;
  identity = name;
  configured = true;
  issued = true;
}

ready_run : challenge toy (configure toy fresh (some (to_hex key)) 2 (some name)).1 nonce ≡ ready
unfolding configure challenge to_hex load_key house_panel.Ota.Hex.hex house_panel.Ota.Hex.hex_digit
    new_receiver
ready_run = refl

-- A stack at the end of the RAM, a reset vector at byte 8, and the name.
abbrev image : Bytes
image =
    (0 ∷ 0 ∷ 8 ∷ 0x24 ∷ 9 ∷ 0 ∷ 4 ∷ 8 ∷ b'p' ∷ b'p' ∷ b'a' ∷ b'n' ∷ b'e' ∷ b'l' ∷ b'2' ∷ [])
    ++ replicate 241 3

-- Its body, cut inside the vectors.
abbrev chunk₁ : Bytes
chunk₁ = (193 ∷ 193 ∷ 201 ∷ 229 ∷ 200 ∷ [])

abbrev chunk₂ : Bytes
chunk₂ =
    (193 ∷ 197 ∷ 201 ∷ 177 ∷ 177 ∷ 160 ∷ 175 ∷ 164 ∷ 173 ∷ 243 ∷ 194 ∷ [])
    ++ (replicate 16 193
        ++ (replicate 16 209
            ++ (replicate 16 208
                ++ (replicate 16 215
                    ++ (replicate 16 214
                        ++ (replicate 16 213
                            ++ (replicate 16 212
                                ++ (replicate 16 219
                                    ++ (replicate 16 218
                                        ++ (replicate 16 217
                                            ++ (replicate 16 216
                                                ++ (replicate 16 223
                                                    ++ (replicate 16 222
                                                        ++ (replicate 16 221
                                                            ++ replicate 16 220))))))))))))))

-- The header of an image of 256 bytes, with its digests and its tag.
abbrev header : Bytes
header =
    (72 ∷ 80 ∷ 79 ∷ 84 ∷ 65 ∷ 49 ∷ 85 ∷ 10 ∷ 2 ∷ 0 ∷ 0 ∷ 1 ∷ 0 ∷ [])
    ++ (replicate 15 255
        ++ (replicate 17 254 ++ (replicate 32 205 ++ (replicate 32 69 ++ replicate 32 5))))

abbrev opened : Receiver toy
opened = record ready {
  cipher = record { counter = take 16 nonce; stream = replicate 16 0; offset = 0 };
  plain_digest = replicate 32 205;
  wire_digest = replicate 32 69;
  remaining = 256;
  image_size = 256;
  issued = false;
  sink = true;
  aes = 210;
}

begin_run : begin toy memory ready (9 ∷ []) header ≡ (true, opened, [])
unfolding begin checksum house_panel.Ota.Receiver.admits equal house_panel.Ota.Bits.difference be32
    new_receiver authentic
begin_run = refl

abbrev halfway : Receiver toy
halfway = record opened {
  cipher = record { counter = replicate 16 255; stream = replicate 16 193; offset = 5 };
  vectors = take 5 image;
  remaining = 251;
  plain = take 5 image;
  wire = chunk₁;
}

feed₁_run : feed toy memory opened [] chunk₁ ≡ (true, halfway, take 5 image)
unfolding feed crypt increment refill checksum new_receiver house_panel.Ota.Receiver.Identity.resume
    scan
feed₁_run = refl

-- The counter has wrapped.
abbrev ended : Receiver toy
ended = record halfway {
  cipher = record { counter = replicate 15 0 ++ (14 ∷ []); stream = replicate 16 223; offset = 0 };
  vectors = take 8 image;
  remaining = 0;
  matched = 6;
  identity_found = true;
  complete = true;
  sink = false;
  plain = image;
  wire = chunk₁ ++ chunk₂;
}

feed₂_run : feed toy memory halfway (take 5 image) chunk₂ ≡ (true, ended, image)
unfolding feed crypt increment refill checksum new_receiver vectors_ok house_panel.Ota.Bits.le32
    equal house_panel.Ota.Bits.difference scan house_panel.Ota.Receiver.Identity.resume
feed₂_run = refl

fed_run : feed_all toy memory opened [] (chunk₁ ∷ chunk₂ ∷ []) ≡ (true, ended, image)
unfolding feed_all
fed_run = ground (arith, feed₁_run, feed₂_run)

all_bytes : Bytes → Bool
all_bytes [] = true
all_bytes (x ∷ xs) = ltb x 256 && all_bytes xs

all_bytes-IsByteList : (xs : Bytes) → all_bytes xs ≡ true → IsByteList xs
unfolding all_bytes
all_bytes-IsByteList [] h = tt
all_bytes-IsByteList (x ∷ xs) h = ground (arith, all_bytes-IsByteList xs)

header-IsByteList : IsByteList header
unfolding all_bytes
header-IsByteList = all_bytes-IsByteList header refl

named : name ≢ []
named e = ground (arith, e)

update_sound_example :
    Admitted toy ready header
    × (authentic toy ready header ≡ true)
    × (session_key toy ready ≡ some 210)
    × Installed toy memory toy_hashes memory_stores ready header 210 image
        (flatten (chunk₁ ∷ chunk₂ ∷ []))
update_sound_example =
    update_sound toy memory toy_hashes memory_stores ready opened ended (9 ∷ []) [] image header
      (chunk₁ ∷ chunk₂ ∷ []) header-IsByteList named begin_run fed_run refl

-- The recorded header again, after the update.
begin_once_example :
    (let (ok, r', s') = begin toy memory ready (9 ∷ []) header in
      let (fine, last, s₂) = feed_all toy memory r' s' (chunk₁ ∷ chunk₂ ∷ []) in
      begin toy memory last [] header ≡ (false, last, []))
unfolding begin house_panel.Ota.Receiver.admits equal house_panel.Ota.Bits.difference be32
    new_receiver authentic checksum
begin_once_example =
    begin_once toy memory ready (9 ∷ []) [] header header (chunk₁ ∷ chunk₂ ∷ []) refl refl

-- A chunk that is longer than the image.
feed-Settled_example : Settled toy memory opened (feed toy memory opened [] (replicate 257 0))
feed-Settled_example = feed-Settled toy memory opened [] (replicate 257 0)

abbrev start : Keystream
start = record { counter = take 16 nonce; stream = replicate 16 0; offset = 0 }

crypt-ctr_example :
    (k' : Keystream) × (crypt (λ b. some (session_block b)) start image
      ≡ (true, k', ctr session_block (take 16 nonce) 0 image))
    × IsAt session_block (take 16 nonce) (0 + length image) k'
crypt-ctr_example =
    crypt-ctr session_block (λ b. some (session_block b)) (λ b. refl) (take 16 nonce) 0 start image
      (start-IsAt session_block start refl)

be_value-increment_example :
    be_value (increment (1 ∷ 255 ∷ 255 ∷ [])) ≡ (be_value (1 ∷ 255 ∷ 255 ∷ []) + 1) % 256 ^ 3
be_value-increment_example = be_value-increment (1 ∷ 255 ∷ 255 ∷ []) (omega arith)

scan_sound_example : Occurs name image
unfolding scan
scan_sound_example = scan_sound name image named refl

-- "p" stands once more right before the name.
scan_complete_example : (scan name 0 image).1 ≡ true
scan_complete_example =
    scan_complete b'p' (b'a' ∷ b'n' ∷ b'e' ∷ b'l' ∷ b'2' ∷ []) image (omega arith)
      (record { before = take 9 image; after = replicate 241 3; splits = refl })

abbrev tag : Bytes
tag = 3 ∷ 255 ∷ []

abbrev other_tag : Bytes
other_tag = 3 ∷ 254 ∷ []

equal_iff_example : (equal tag other_tag ≡ true) ↔ (tag ≡ other_tag)
equal_iff_example = equal_iff tag other_tag (omega arith) (omega arith)

key-IsByteList : IsByteList key
unfolding all_bytes
key-IsByteList = all_bytes-IsByteList key refl

load_key-to_hex_example : load_key (replicate 32 0) (to_hex key) ≡ (true, key)
load_key-to_hex_example = load_key-to_hex (replicate 32 0) key refl key-IsByteList

vectors_ok-IsBootable_example : IsBootable (take 8 image) 256
unfolding vectors_ok house_panel.Ota.Bits.le32
vectors_ok-IsBootable_example = vectors_ok-IsBootable (take 8 image) 256 refl

ecb_succeeds : (a : ℕ) (b : Bytes) → toy.crypt_ecb a b ≡ some (block (toy.crypt_ecb a) b)
unfolding block
ecb_succeeds a b = refl

abbrev toy_works : Works toy memory
toy_works = record {
  ecb_works = ecb_succeeds;
  update_works = λ x b. (x ++ b, refl);
  finish_works = λ x. (toy_digest x, refl);
  write_works = λ b s. (s ++ b, refl);
  end_works = λ s. (s, refl);
}

abbrev at_end : Keystream
at_end = record { counter = replicate 15 0 ++ (14 ∷ []); stream = replicate 16 223; offset = 0 }

crypt_run : crypt (toy.crypt_ecb 210) start (chunk₁ ++ (chunk₂ ++ [])) ≡ (true, at_end, image)
unfolding crypt increment refill checksum
crypt_run = refl

decrypts_to : image_of toy opened (chunk₁ ++ (chunk₂ ++ [])) ≡ image
unfolding new_receiver
decrypts_to =
    let (k', run, at) =
      crypt-ctr (block (toy.crypt_ecb 210)) (toy.crypt_ecb 210) (ecb_succeeds 210) (take 16 nonce) 0
        start (chunk₁ ++ (chunk₂ ++ [])) (start-IsAt (block (toy.crypt_ecb 210)) start refl) in
    sym (ap (λ (q : Bool × Keystream × Bytes). q.2) run)
    ∙ ap (λ (q : Bool × Keystream × Bytes). q.2) crypt_run

digest_run : toy_digest image ≡ slice 45 32 header
unfolding checksum
digest_run = refl

vectors_run : vectors_ok (take 8 image) 256 ≡ true
unfolding vectors_ok house_panel.Ota.Bits.le32
vectors_run = refl

scan_run : (scan name 0 image).1 ≡ true
unfolding scan
scan_run = refl

update_complete_example :
    Completes toy memory toy_hashes memory_stores toy_works opened []
      (chunk₁ ∷ chunk₂ ∷ [])
      (image_of toy opened (chunk₁ ++ (chunk₂ ++ [])))
unfolding be32 checksum flatten
update_complete_example =
    update_complete toy memory toy_hashes memory_stores toy_works ready opened (9 ∷ []) [] header
      (chunk₁ ∷ chunk₂ ∷ []) begin_run (omega arith) refl refl
      (ap toy_digest decrypts_to ∙ digest_run)
      (ap (λ b. vectors_ok (take 8 b) 256) decrypts_to ∙ vectors_run)
      (ap (λ b. (scan name 0 b).1) decrypts_to ∙ scan_run)
