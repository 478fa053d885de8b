-- ===== src/Ota/Receiver/Complete.antt =====
-- A whole update of OtaReceiver (ota_protocol.cpp) where the calls of mbedtls and of the sink succeed.
use mathlib.Core.Path.{subst}
use mathlib.Core.List.{append_assoc, append-nil, flatten}
use house_panel.Base.{
  ◌≡◌, ◌≢◌, refl, sym, ap, ◌∙◌, Bool, true, false, arith, List, [], ◌∷◌, ◌++◌, Bytes, length,
  length-append, take, no_bytes, take-within,
}
use house_panel.Ota.Bits.{be32}
use house_panel.Ota.Crypto.{Crypto, Sink}
use house_panel.Ota.Keystream.Ctr.{block, ctr-append, length-ctr}
use house_panel.Ota.Receiver.Vectors.{vectors_ok}
use house_panel.Ota.Receiver.Identity.{scan}
use house_panel.Ota.Receiver.Begin.{begin-Opened}
use house_panel.Ota.Receiver.Feed.{goes_on, ends, Fed, feed-Fed, after_chunk}
use house_panel.Ota.Receiver.Session.{Hashes, Stores, InSession, image_of, chunk-InSession}
use house_panel.Ota.Receiver.Update.{feed_all, Opened-InSession}
use house_panel.Ota.Receiver.{Receiver, slice, begin, feed, search_identity, new_session}
use house_panel.Ota.Receiver.Accept.{Works, Agrees, feed_accepts}

module _ (c : Crypto) {S : Type 0} (k : Sink S) (h : Hashes c) (p : Stores k) (w : Works c k) where
  open h use {Absorbed, digest}

  -- No chunk is empty.
  abbrev pub AllFilled : List Bytes → Type 0
  AllFilled [] = Unit {0}
  AllFilled (chunk ∷ chunks) = (length chunk ≢ 0) × AllFilled chunks

  all_empty : (chunks : List Bytes) → AllFilled chunks → length (flatten chunks) ≡ 0 → chunks ≡ []
  unfolding flatten
  all_empty [] a e = refl
  all_empty (x ∷ xs) a e = absurd (a.0 (omega (arith, e, length-append {0} x (flatten xs))))

  Agrees-prefix :
      (r : Receiver c) (xs ys : Bytes)
      → length (xs ++ ys) ≡ r.image_size
      → Agrees c k h p w r (xs ++ ys)
      → Agrees c k h p w r xs
  Agrees-prefix r xs ys size g =
      let whole : length xs ≡ r.image_size → xs ++ ys ≡ xs = λ e.
        ap (λ b. xs ++ b) (no_bytes ys (omega (arith, e, size, length-append {0} xs ys)))
        ∙ append-nil xs in
      record {
        bootable = λ eight.
            subst (λ v. vectors_ok v r.image_size ≡ true)
              (ap (take 8) (ctr-append (block (c.crypt_ecb r.aes)) (take 16 r.nonce) 0 xs ys)
                ∙ take-within 8 (image_of c r xs) _ (
                    omega (
                      arith,
                      eight,
                      length-ctr (block (c.crypt_ecb r.aes)) (take 16 r.nonce) 0 xs,
                    )))
              (g.bootable (omega (arith, eight, length-append {0} xs ys)));
        wire_ok = λ e. subst (λ b. digest b ≡ r.wire_digest) (whole e) (g.wire_ok size);
        plain_ok =
            λ e. subst (λ b. digest (image_of c r b) ≡ r.plain_digest) (whole e) (g.plain_ok size);
        found = λ e.
            subst (λ b. (scan r.identity 0 (image_of c r b)).1 ≡ true) (whole e) (g.found size);
      }

  -- The terms of the session stay as they were.
  Agrees-after :
      (r q : Receiver c) (s t : S) (chunk body : Bytes) (f : Fed c k r s chunk q t)
      → Agrees c k h p w r body
      → Agrees c k h p w (after_chunk c k r f.wire' f.cipher' f.plain' f.image) body
  unfolding search_identity
  Agrees-after r q s t chunk body f g = record {
    bootable = g.bootable;
    wire_ok = g.wire_ok;
    plain_ok = g.plain_ok;
    found = g.found;
  }

  -- The chunks are taken one by one, and the last one completes the update.
  abbrev pub Completes : Receiver c → S → List Bytes → Bytes → Type 0
  Completes r s chunks image =
      (r' : Receiver c) × (s' : S) × (feed_all c k r s chunks ≡ (true, r', s'))
      × (r'.complete ≡ true)
      × p.Published s' image

  feed_all-cons :
      (r q : Receiver c) (s t : S) (chunk : Bytes) (chunks : List Bytes)
      (out : Bool × Receiver c × S)
      → feed c k r s chunk ≡ (true, q, t)
      → feed_all c k q t chunks ≡ out
      → feed_all c k r s (chunk ∷ chunks) ≡ out
  unfolding feed_all
  feed_all-cons r q s t chunk chunks out fed run =
      ap
        (λ (u : Bool × Receiver c × S). elim u.0 [
          | true ↦ feed_all c k u.1 u.2 chunks
          | false ↦ (false, u.1, u.2)
        ])
        fed
      ∙ run

  feed_all-Completes :
      (chunks : List Bytes) (r : Receiver c) (s : S) (body : Bytes)
      → AllFilled chunks
      → InSession c k h p r s body
      → r.sink ≡ true
      → r.remaining ≢ 0
      → r.remaining ≡ length (flatten chunks)
      → Agrees c k h p w r (body ++ flatten chunks)
      → Completes r s chunks (image_of c r (body ++ flatten chunks))
  unfolding feed_all flatten search_identity
  feed_all-Completes [] r s body a i on more left g = absurd (more left)
  feed_all-Completes (chunk ∷ chunks) r s body a i on more left g =
      let parts = append_assoc body chunk (flatten chunks) in
      let g' : Agrees c k h p w r ((body ++ chunk) ++ flatten chunks) =
        subst (Agrees c k h p w r) (sym parts) g in
      let size : length ((body ++ chunk) ++ flatten chunks) ≡ r.image_size = omega (
        arith,
        left,
        i.count,
        length-append {0} (body ++ chunk) (flatten chunks),
        length-append {0} body chunk,
        length-append {0} chunk (flatten chunks),
      ) in
      let taken =
        feed_accepts c k h p w r s body chunk i
          (Agrees-prefix r (body ++ chunk) (flatten chunks) size g')
          (omega (arith, left, length-append {0} chunk (flatten chunks))) on a.0 in
      let q = (feed c k r s chunk).1 in
      let t = (feed c k r s chunk).2 in
      let f : Fed c k r s chunk q t = feed-Fed c k r q s t chunk (ground arith) in
      let i' = chunk-InSession c k h p r q s t body chunk i f in
      subst (Completes r s (chunk ∷ chunks)) (ap (image_of c r) parts) (elim f.outcome [
        | goes_on some_left eq et ↦
            let (r', s', run, done, out) =
              feed_all-Completes chunks (after_chunk c k r f.wire' f.cipher' f.plain' f.image) f.t
                (body ++ chunk) a.1 i' f.attached some_left
                (omega (arith, i'.count, size, length-append {0} (body ++ chunk) (flatten chunks)))
                (Agrees-after r q s t chunk _ f g') in
            (
              r',
              s',
              feed_all-cons r (after_chunk c k r f.wire' f.cipher' f.plain' f.image) s f.t chunk
                  chunks _ (ground (arith, eq, et)) run,
              done,
              out,
            )
        | ends none_left e ↦
            let last_chunk = all_empty chunks a.1 (
              omega (
                arith,
                none_left,
                i'.count,
                size,
                length-append {0} (body ++ chunk) (flatten chunks),
              )) in
            let here : body ++ chunk ≡ (body ++ chunk) ++ flatten chunks =
              sym (append-nil (body ++ chunk))
              ∙ ap (λ u. (body ++ chunk) ++ flatten u) (sym last_chunk) in
            (
              q,
              t,
              feed_all-cons r q s t chunk chunks (true, q, t) (ground arith)
                  (ap (feed_all c k q t) last_chunk),
              ap (λ (u : Receiver c). u.complete) e.last,
              subst (λ b. p.Published t (image_of c r b)) here
                  (p.finish_lem f.t t _ i'.holds e.finished),
            )
      ])

  -- If `begin` has accepted a header, and the chunks, none of them empty, are together of the header's
  -- size and wire digest, and the image that they decrypt to has the header's plain digest, a vector
  -- table that passes the check, and the identity where the search finds it, then every chunk is
  -- accepted, the receiver says in the end that the update is complete, and the sink has published the
  -- image; provided that the calls of mbedtls and of the sink succeed and keep what they are given.
  pub update_complete :
      (r r₁ : Receiver c) (s s₁ : S) (header : Bytes) (chunks : List Bytes)
      → begin c k r s header ≡ (true, r₁, s₁)
      → AllFilled chunks
      → length (flatten chunks) ≡ be32 0 (slice 9 4 header)
      → digest (flatten chunks) ≡ slice 77 32 header
      → digest (image_of c r₁ (flatten chunks)) ≡ slice 45 32 header
      → vectors_ok (take 8 (image_of c r₁ (flatten chunks))) (length (flatten chunks)) ≡ true
      → (scan r₁.identity 0 (image_of c r₁ (flatten chunks))).1 ≡ true
      → Completes r₁ s₁ chunks (image_of c r₁ (flatten chunks))
  unfolding new_session
  update_complete r r₁ s s₁ header chunks b filled size wire plain vectors found =
      let (a, auth, o, e) = begin-Opened c k r r₁ s s₁ header b in
      let sized : be32 0 (slice 9 4 header) ≡ r₁.image_size =
        sym (ap (λ (u : Receiver c). u.image_size) o.fields) in
      let left : be32 0 (slice 9 4 header) ≡ r₁.remaining =
        sym (ap (λ (u : Receiver c). u.remaining) o.fields) in
      feed_all-Completes chunks r₁ s₁ [] filled (Opened-InSession c k h p r r₁ s s₁ header o e)
        (ap (λ (u : Receiver c). u.sink) o.fields) (omega (arith, left, a.size_low))
        (sym left ∙ sym size)
        (record {
          bootable = λ eight.
              subst (λ n. vectors_ok (take 8 (image_of c r₁ (flatten chunks))) n ≡ true)
                (size ∙ sized) vectors;
          wire_ok = λ full. wire ∙ sym (ap (λ (u : Receiver c). u.wire_digest) o.fields);
          plain_ok = λ full. plain ∙ sym (ap (λ (u : Receiver c). u.plain_digest) o.fields);
          found = λ full. found;
        })
