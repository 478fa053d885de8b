-- ===== src/Ota/Receiver/Feed.antt =====
-- The branches of OtaReceiver::feed (ota_protocol.cpp) for an accepted chunk.
use house_panel.Base.{
  ◌-◌, ◌≤◌, ◌≡◌, ◌≢◌, inl, inr, true, false, some, arith, Bytes, length, Bool-cases, Option-cases,
  ◌==◌,
}
use house_panel.Ota.Bits.{equal}
use house_panel.Ota.Crypto.{Crypto, Sink}
use house_panel.Ota.Keystream.{Keystream, crypt}
use house_panel.Ota.Receiver.Vectors.{vectors_ok}
use house_panel.Ota.Receiver.{
  Receiver, feed, fail, finalize, store, inspect, digest_plain, decrypt, search_identity,
  fill_vectors,
}

module _ (c : Crypto) {S : Type 0} (k : Sink S) where
  -- The last chunk.
  pub record Ended (r : Receiver c) (s : S) (r' : Receiver c) (s' : S) : Type 0 where
    pub plain' : Bytes
    pub wire' : Bytes
    pub plain_is : c.sha_finish r.plain ≡ some plain'
    pub wire_is : c.sha_finish r.wire ≡ some wire'
    pub plain_ok : equal plain' r.plain_digest ≡ true
    pub wire_ok : equal wire' r.wire_digest ≡ true
    pub found : r.identity_found ≡ true
    pub finished : k.finish s ≡ (true, s')
    pub last : r' ≡ record r { sink = false; complete = true }

  finalize-Ended :
      (r r' : Receiver c) (s s' : S) → finalize c k r s ≡ (true, r', s') → Ended r s r' s'
  unfolding finalize
  finalize-Ended r r' s s' h = elim (Option-cases (c.sha_finish r.plain)) [
    | inl e ↦ ground (arith)
    | inr (p, e) ↦ elim (Option-cases (c.sha_finish r.wire)) [
      | inl f ↦ ground arith
      | inr (w, f) ↦ record {
        plain' = p;
        wire' = w;
        plain_is = e;
        wire_is = f;
        plain_ok = ground arith;
        wire_ok = ground arith;
        found = ground arith;
        finished = ground arith;
        last = ground arith;
      }
    ]
  ]

  -- The sink has taken the image; the session goes on, or has ended.
  pub data Outcome (r : Receiver c) (s : S) (r' : Receiver c) (s' : S) : Type 0 where
    goes_on : r.remaining ≢ 0 → r' ≡ r → s' ≡ s → Outcome r s r' s'
    ends : r.remaining ≡ 0 → Ended r s r' s' → Outcome r s r' s'

  store-Outcome :
      (r r' : Receiver c) (s s' : S) (image : Bytes)
      → store c k r s image ≡ (true, r', s')
      → (t : S) × (k.write image s ≡ (true, t))
        × Outcome (record r { remaining = r.remaining - length image }) t r' s'
  unfolding store fail
  store-Outcome r r' s s' image h = elim (Bool-cases (k.write image s).0) [
    | inl w ↦ (
      (k.write image s).1,
      ground arith,
      elim (Bool-cases (r.remaining - length image == 0)) [
        | inl z ↦ ends (ground arith) (finalize-Ended _ r' _ s' (ground arith))
        | inr n ↦ goes_on (ground arith) (ground arith) (ground arith)
      ],
    )
    | inr w ↦ ground arith
  ]

  abbrev pub searched : Receiver c → c.Sha → Keystream → c.Sha → Bytes → Receiver c
  searched r wire' cipher' plain' image =
      search_identity c
        (record r {
          wire = wire';
          cipher = cipher';
          plain = plain';
          vectors = fill_vectors r.vectors image;
        })
        image

  -- The receiver when the sink has taken `image`.
  abbrev pub after_chunk : Receiver c → c.Sha → Keystream → c.Sha → Bytes → Receiver c
  after_chunk r wire' cipher' plain' image = record (searched r wire' cipher' plain' image) {
    remaining = (searched r wire' cipher' plain' image).remaining - length image;
  }

  -- An accepted chunk: each step has succeeded, and `image` is what the sink was given.
  pub record Fed (r : Receiver c) (s : S) (body : Bytes) (r' : Receiver c) (s' : S) : Type 0 where
    pub wire' : c.Sha
    pub cipher' : Keystream
    pub image : Bytes
    pub plain' : c.Sha
    pub t : S
    pub attached : r.sink ≡ true
    pub nonempty : length body ≢ 0
    pub fits : length body ≤ r.remaining
    pub wire_is : c.sha_update r.wire body ≡ some wire'
    pub crypt_is : crypt (c.crypt_ecb r.aes) r.cipher body ≡ (true, cipher', image)
    pub plain_is : c.sha_update r.plain image ≡ some plain'
    pub vectors_are :
        length (fill_vectors r.vectors image) ≡ 8
        → vectors_ok (fill_vectors r.vectors image) r.image_size ≡ true
    pub written : k.write image s ≡ (true, t)
    pub outcome : Outcome (after_chunk r wire' cipher' plain' image) t r' s'

  inspect_cases :
      (r r' : Receiver c) (s s' : S) (image : Bytes)
      → inspect c k r s image ≡ (true, r', s')
      → (length (fill_vectors r.vectors image) ≡ 8
          → vectors_ok (fill_vectors r.vectors image) r.image_size ≡ true)
        × (store c k
              (search_identity c (record r { vectors = fill_vectors r.vectors image }) image)
              s
              image
            ≡ (true, r', s'))
  unfolding inspect fail
  inspect_cases r r' s s' image h = (λ e. ground arith, ground arith)

  decrypt_cases :
      (r r' : Receiver c) (s s' : S) (body : Bytes)
      → decrypt c k r s body ≡ (true, r', s')
      → (cipher' : Keystream) × (image : Bytes) × (crypt (c.crypt_ecb r.aes) r.cipher body
          ≡ (true, cipher', image))
        × (digest_plain c k (record r { cipher = cipher' }) s image ≡ (true, r', s'))
  unfolding decrypt fail
  decrypt_cases r r' s s' body h =
      let out = crypt (c.crypt_ecb r.aes) r.cipher body in
      (out.1, out.2, ground arith, ground arith)

  digest_cases :
      (r r' : Receiver c) (s s' : S) (image : Bytes)
      → digest_plain c k r s image ≡ (true, r', s')
      → (plain' : c.Sha) × (c.sha_update r.plain image ≡ some plain')
        × (inspect c k (record r { plain = plain' }) s image ≡ (true, r', s'))
  unfolding digest_plain fail
  digest_cases r r' s s' image h = elim (Option-cases (c.sha_update r.plain image)) [
    | inl e ↦ ground arith
    | inr (p, e) ↦ (p, e, ground arith)
  ]

  feed_cases :
      (r r' : Receiver c) (s s' : S) (body : Bytes)
      → feed c k r s body ≡ (true, r', s')
      → (wire' : c.Sha) × (r.sink ≡ true)
        × (length body ≢ 0)
        × (length body ≤ r.remaining)
        × (c.sha_update r.wire body ≡ some wire')
        × (decrypt c k (record r { wire = wire' }) s body ≡ (true, r', s'))
  unfolding feed fail
  feed_cases r r' s s' body h = elim (Option-cases (c.sha_update r.wire body)) [
    | inl e ↦ ground arith
    | inr (w, e) ↦ (w, ground arith, ground arith, ground arith, e, ground arith)
  ]

  pub feed-Fed :
      (r r' : Receiver c) (s s' : S) (body : Bytes)
      → feed c k r s body ≡ (true, r', s')
      → Fed r s body r' s'
  feed-Fed r r' s s' body h =
      let (wire', attached, nonempty, fits, wire_is, h₁) = feed_cases r r' s s' body h in
      let (cipher', image, crypt_is, h₂) = decrypt_cases _ r' s s' body h₁ in
      let (plain', plain_is, h₃) = digest_cases _ r' s s' image h₂ in
      let (vectors_are, h₄) = inspect_cases _ r' s s' image h₃ in
      let (t, written, outcome) = store-Outcome _ r' s s' image h₄ in
      record {
        wire' = wire';
        cipher' = cipher';
        image = image;
        plain' = plain';
        t = t;
        attached = attached;
        nonempty = nonempty;
        fits = fits;
        wire_is = wire_is;
        crypt_is = crypt_is;
        plain_is = plain_is;
        vectors_are = vectors_are;
        written = written;
        outcome = outcome;
      }
