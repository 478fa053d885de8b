-- ===== src/Ota/Receiver/Accept.antt =====
-- OtaReceiver::feed (ota_protocol.cpp) of one chunk where the calls of mbedtls and of the sink succeed.
use mathlib.Core.Path.{subst}
use native.Mathlib.Nat.{zero-add}
use house_panel.Base.{
  ◌-◌, ◌≤◌, ◌≡◌, ◌≢◌, sym, ap, ◌∙◌, inl, inr, true, some, arith, ◌++◌, Bytes, length, length-append,
  length-take, take, take_more, IsByteList, ◌==◌, Bool-cases,
}
use house_panel.Ota.Bits.{equal, equal_iff}
use house_panel.Ota.Crypto.{Crypto, Sink}
use house_panel.Ota.Keystream.{Keystream, crypt}
use house_panel.Ota.Keystream.Ctr.{block, ctr, ctr-append, length-ctr, crypt-ctr}
use house_panel.Ota.Receiver.Vectors.{vectors_ok}
use house_panel.Ota.Receiver.Identity.{scan, resume}
use house_panel.Ota.Receiver.Identity.Search.{resume-append}
use house_panel.Ota.Receiver.Session.{Hashes, Stores, InSession, image_of}
use house_panel.Ota.Receiver.{
  Receiver, feed, fail, finalize, store, inspect, digest_plain, decrypt, search_identity,
  fill_vectors,
}

-- The calls succeed.
pub record Works (c : Crypto) {S : Type 0} (k : Sink S) : Type 0 where
  pub ecb_works : (a : c.Aes) (b : Bytes) → c.crypt_ecb a b ≡ some (block (c.crypt_ecb a) b)
  pub update_works : (x : c.Sha) (b : Bytes) → (x' : c.Sha) × (c.sha_update x b ≡ some x')
  pub finish_works : (x : c.Sha) → (out : Bytes) × (c.sha_finish x ≡ some out)
  pub write_works : (b : Bytes) (s : S) → (t : S) × (k.write b s ≡ (true, t))
  pub end_works : (s : S) → (t : S) × (k.finish s ≡ (true, t))

module _ (c : Crypto) {S : Type 0} (k : Sink S) (h : Hashes c) (p : Stores k) (w : Works c k) where
  open h use {Absorbed, digest}

  equal_digest :
      (x : c.Sha) (xs out d : Bytes)
      → Absorbed x xs
      → c.sha_finish x ≡ some out
      → digest xs ≡ d
      → equal out d ≡ true
  equal_digest x xs out d a f e =
      let made = h.finish_lem x xs out a f in
      (equal_iff out d (subst IsByteList (sym made) (h.digest-IsByteList xs))
          (subst IsByteList e (h.digest-IsByteList xs))).1
        (made ∙ e)

  finalize_accepts :
      (r : Receiver c) (s : S) (xs ys : Bytes)
      → Absorbed r.plain xs
      → Absorbed r.wire ys
      → digest xs ≡ r.plain_digest
      → digest ys ≡ r.wire_digest
      → r.identity_found ≡ true
      → (finalize c k r s).0 ≡ true
  unfolding finalize
  finalize_accepts r s xs ys a b e f found =
      let (pl, pe) = w.finish_works r.plain in
      let (wi, we) = w.finish_works r.wire in
      let (t, te) = w.end_works s in
      let same = equal_digest r.plain xs pl r.plain_digest a pe e in
      let same_wire = equal_digest r.wire ys wi r.wire_digest b we f in ground arith

  store_accepts :
      (r : Receiver c) (s : S) (image : Bytes)
      → (r.remaining - length image ≡ 0
          → (t : S)
          → (finalize c k (record r { remaining = r.remaining - length image }) t).0 ≡ true)
      → (store c k r s image).0 ≡ true
  unfolding store
  store_accepts r s image last =
      let (t, te) = w.write_works image s in
      elim (Bool-cases (r.remaining - length image == 0)) [
        | inl z ↦ let done = last (ground arith) t in ground arith
        | inr n ↦ ground arith
      ]

  -- What the chunk up to which the body has come may not contradict.
  pub record Agrees (r : Receiver c) (body : Bytes) : Type 0 where
    pub bootable : 8 ≤ length body → vectors_ok (take 8 (image_of c r body)) r.image_size ≡ true
    pub wire_ok : length body ≡ r.image_size → digest body ≡ r.wire_digest
    pub plain_ok : length body ≡ r.image_size → digest (image_of c r body) ≡ r.plain_digest
    pub found : length body ≡ r.image_size → (scan r.identity 0 (image_of c r body)).1 ≡ true

  module _ (r : Receiver c) (s : S) (body chunk : Bytes) (i : InSession c k h p r s body) where
    next : Bytes
    next = ctr (block (c.crypt_ecb r.aes)) (take 16 r.nonce) (length body) chunk

    image-next : image_of c r body ++ next ≡ image_of c r (body ++ chunk)
    unfolding next
    image-next =
        ap (λ n. image_of c r body ++ ctr (block (c.crypt_ecb r.aes)) (take 16 r.nonce) n chunk)
          (sym (zero-add (length body)))
        ∙ sym (ctr-append (block (c.crypt_ecb r.aes)) (take 16 r.nonce) 0 body chunk)

    length-next : length next ≡ length chunk
    unfolding next
    length-next = length-ctr _ _ _ chunk

    fill-next : fill_vectors r.vectors next ≡ take 8 (image_of c r (body ++ chunk))
    fill-next =
        ap (λ v. fill_vectors v next) i.vectors_are
        ∙ take_more 8 (image_of c r body) next
        ∙ ap (take 8) image-next

    search-next :
        resume r.identity r.matched r.identity_found next
        ≡ scan r.identity 0 (image_of c r (body ++ chunk))
    search-next =
        ap (λ q. resume r.identity q.0 q.1 next) (sym i.search_is)
        ∙ sym (resume-append r.identity 0 (image_of c r body) next)
        ∙ ap (scan r.identity 0) image-next

    decrypts : (k' : Keystream) × (crypt (c.crypt_ecb r.aes) r.cipher chunk ≡ (true, k', next))
    unfolding next
    decrypts =
        let (k', run, at) =
          crypt-ctr (block (c.crypt_ecb r.aes)) (c.crypt_ecb r.aes) (w.ecb_works r.aes)
            (take 16 r.nonce) (length body) r.cipher chunk i.place in
        (k', run)

    module _ (g : Agrees r (body ++ chunk)) (fits : length chunk ≤ r.remaining) where
      inspect_accepts :
          (wire' : c.Sha) (cipher' : Keystream) (plain' : c.Sha)
          → c.sha_update r.wire chunk ≡ some wire'
          → c.sha_update r.plain next ≡ some plain'
          → (inspect c k (record r { wire = wire'; cipher = cipher'; plain = plain' }) s next).0
            ≡ true
      unfolding inspect search_identity
      inspect_accepts wire' cipher' plain' we pe =
          let full : length (fill_vectors r.vectors next) ≡ 8
              → vectors_ok (fill_vectors r.vectors next) r.image_size ≡ true =
            λ e.
              subst (λ v. vectors_ok v r.image_size ≡ true) (sym fill-next)
                (g.bootable (
                  omega (
                    arith,
                    e,
                    ap length fill-next,
                    length-take {0} 8 (image_of c r (body ++ chunk)),
                    length-ctr (block (c.crypt_ecb r.aes)) (take 16 r.nonce) 0 (body ++ chunk),
                  ))) in
          let r' : Receiver c = record r {
            wire = wire';
            cipher = cipher';
            plain = plain';
            vectors = fill_vectors r.vectors next;
          } in
          let at_end : r.remaining - length next ≡ 0 → length (body ++ chunk) ≡ r.image_size =
            λ z. omega (arith, z, i.count, length-next, length-append {0} body chunk) in
          let stored = store_accepts (search_identity c r' next) s next (λ z t.
            finalize_accepts
              (record (search_identity c r' next) { remaining = r.remaining - length next }) t
              (image_of c r (body ++ chunk)) (body ++ chunk)
              (subst (Absorbed plain') image-next
                (h.update_lem r.plain plain' _ next i.plain_is pe))
              (h.update_lem r.wire wire' body chunk i.wire_is we) (g.plain_ok (at_end z))
              (g.wire_ok (at_end z)) (ap (λ q. q.1) search-next ∙ g.found (at_end z))) in
          ground arith

      pub feed_accepts : r.sink ≡ true → length chunk ≢ 0 → (feed c k r s chunk).0 ≡ true
      unfolding feed decrypt digest_plain fail
      feed_accepts on some_bytes =
          let (wire', we) = w.update_works r.wire chunk in
          let (cipher', ce) = decrypts in
          let (plain', pe) = w.update_works r.plain next in
          let ok = inspect_accepts wire' cipher' plain' we pe in ground arith
