-- ===== src/Ota/Receiver/Session.antt =====
-- A whole update: `begin` and then chunk after chunk. The invariant ties the receiver's fields to the
-- bytes that it has been fed.
use mathlib.Core.Path.{subst}
use native.Mathlib.Nat.{zero-add}
use house_panel.Base.{
  ◌+◌, ◌≤◌, ◌≡◌, sym, ap, ◌∙◌, true, false, some, arith, [], ◌++◌, Bytes, length, length-append,
  length-take, take, take_more, IsByteList,
}
use house_panel.Ota.Crypto.{Crypto, Sink}
use house_panel.Ota.Keystream.Ctr.{block, ctr, ctr-append, length-ctr, IsAt, crypt_sound}
use house_panel.Ota.Receiver.Vectors.{vectors_ok}
use house_panel.Ota.Receiver.Identity.{scan, resume}
use house_panel.Ota.Receiver.Identity.Search.{resume-append}
use house_panel.Ota.Receiver.Feed.{Fed, after_chunk}
use house_panel.Ota.Receiver.{Receiver, search_identity, fill_vectors}

-- What SHA-256 in pieces promises: a context holds the bytes that it has absorbed since its start,
-- and `digest` is the hash function.
pub record Hashes (c : Crypto) : Type 1 where
  pub Absorbed : c.Sha → Bytes → Type 0
  pub digest : Bytes → Bytes
  pub digest-IsByteList : (xs : Bytes) → IsByteList (digest xs)
  pub starts_lem : (h h' : c.Sha) → c.sha_starts h ≡ some h' → Absorbed h' []
  pub update_lem :
      (h h' : c.Sha) (xs ys : Bytes)
      → Absorbed h xs
      → c.sha_update h ys ≡ some h'
      → Absorbed h' (xs ++ ys)
  pub finish_lem :
      (h : c.Sha) (xs out : Bytes) → Absorbed h xs → c.sha_finish h ≡ some out → out ≡ digest xs

-- What a sink promises: it holds what was written since it was opened, and publishes that.
pub record Stores {S : Type 0} (k : Sink S) : Type 1 where
  pub Holds : S → Bytes → Type 0
  pub Published : S → Bytes → Type 0
  pub open_lem : (s t : S) → k.open_sink s ≡ (true, t) → Holds t []
  pub write_lem :
      (s t : S) (xs ys : Bytes) → Holds s xs → k.write ys s ≡ (true, t) → Holds t (xs ++ ys)
  pub finish_lem : (s t : S) (xs : Bytes) → Holds s xs → k.finish s ≡ (true, t) → Published t xs

module _ (c : Crypto) where
  abbrev pub encrypt : Receiver c → Bytes → Bytes
  encrypt r = block (c.crypt_ecb r.aes)

  -- The image that the fed bytes stand for: counter mode from the first half of the nonce.
  abbrev pub image_of : Receiver c → Bytes → Bytes
  image_of r body = ctr (encrypt r) (take 16 r.nonce) 0 body

module _ (c : Crypto) {S : Type 0} (k : Sink S) (h : Hashes c) (p : Stores k) where
  open h use {Absorbed, digest}
  open p use {Holds, Published}

  -- The session's state but for the sink and `remaining ≢ 0`.
  pub record InSession (r : Receiver c) (s : S) (body : Bytes) : Type 0 where
    pub pending : r.complete ≡ false
    pub count : r.remaining + length body ≡ r.image_size
    pub place : IsAt (encrypt c r) (take 16 r.nonce) (length body) r.cipher
    pub wire_is : Absorbed r.wire body
    pub plain_is : Absorbed r.plain (image_of c r body)
    pub vectors_are : r.vectors ≡ take 8 (image_of c r body)
    pub checked : 8 ≤ length body → vectors_ok r.vectors r.image_size ≡ true
    pub search_is : scan r.identity 0 (image_of c r body) ≡ (r.matched, r.identity_found)
    pub holds : Holds s (image_of c r body)

  module _ (r r' : Receiver c) (s s' : S) (body chunk : Bytes) (i : InSession r s body)
      (f : Fed c k r s chunk r' s') where
    decrypted :
        (f.image ≡ ctr (encrypt c r) (take 16 r.nonce) (length body) chunk)
        × IsAt (encrypt c r) (take 16 r.nonce) (length body + length chunk) f.cipher'
    decrypted =
        crypt_sound (c.crypt_ecb r.aes) (take 16 r.nonce) (length body) r.cipher f.cipher' chunk
          f.image i.place f.crypt_is

    image-append : image_of c r body ++ f.image ≡ image_of c r (body ++ chunk)
    image-append =
        ap (λ b. image_of c r body ++ b)
          (decrypted.0
            ∙ ap (λ n. ctr (encrypt c r) (take 16 r.nonce) n chunk) (sym (zero-add (length body))))
        ∙ sym (ctr-append (encrypt c r) (take 16 r.nonce) 0 body chunk)

    length-image : length f.image ≡ length chunk
    length-image = ap length decrypted.0 ∙ length-ctr _ _ _ chunk

    fill-take : fill_vectors r.vectors f.image ≡ take 8 (image_of c r (body ++ chunk))
    fill-take =
        ap (λ v. fill_vectors v f.image) i.vectors_are
        ∙ take_more 8 (image_of c r body) f.image
        ∙ ap (take 8) image-append

    length-fill : 8 ≤ length (body ++ chunk) → length (fill_vectors r.vectors f.image) ≡ 8
    length-fill eight = omega (
      arith,
      ap length fill-take,
      length-take {0} 8 (image_of c r (body ++ chunk)),
      length-ctr (encrypt c r) (take 16 r.nonce) 0 (body ++ chunk),
    )

    pub chunk-InSession :
        InSession (after_chunk c k r f.wire' f.cipher' f.plain' f.image) f.t (body ++ chunk)
    unfolding search_identity
    chunk-InSession = record {
      pending = i.pending;
      count = omega (arith, i.count, f.fits, length-image, length-append {0} body chunk);
      place =
          subst (λ n. IsAt (encrypt c r) (take 16 r.nonce) n f.cipher')
            (sym (length-append body chunk)) decrypted.1;
      wire_is = h.update_lem r.wire f.wire' body chunk i.wire_is f.wire_is;
      plain_is =
          subst (Absorbed f.plain') image-append
            (h.update_lem r.plain f.plain' _ f.image i.plain_is f.plain_is);
      vectors_are = fill-take;
      checked = λ eight. f.vectors_are (length-fill eight);
      search_is =
          ap (scan r.identity 0) (sym image-append)
          ∙ resume-append r.identity 0 (image_of c r body) f.image
          ∙ ap (λ q. resume r.identity q.0 q.1 f.image) i.search_is;
      holds = subst (Holds f.t) image-append (p.write_lem s f.t _ f.image i.holds f.written);
    }
