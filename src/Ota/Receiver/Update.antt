-- ===== src/Ota/Receiver/Update.antt =====
-- The end of a session of OtaReceiver (ota_protocol.cpp): the header and what is installed.
use mathlib.Core.Path.{subst}
use mathlib.Core.List.{append_assoc, append-nil, flatten}
use house_panel.Base.{
  ◌≤◌, ◌≡◌, ◌≢◌, refl, sym, ap, ◌∙◌, inl, inr, Bool, true, false, some, arith, List, [], ◌∷◌, ◌++◌,
  Bytes, length, take, IsByteList, Bool-cases, take-IsByteList, drop-IsByteList,
}
use house_panel.Ota.Bits.{equal_iff, be32}
use house_panel.Ota.Crypto.{Crypto, Sink}
use house_panel.Ota.Receiver.Vectors.{vectors_ok, IsBootable, vectors_ok-IsBootable}
use house_panel.Ota.Receiver.Identity.{scan}
use house_panel.Ota.Receiver.Identity.Search.{Occurs, scan_sound}
use house_panel.Ota.Receiver.Begin.{Admitted, Opened, begin-Opened}
use house_panel.Ota.Receiver.Feed.{Ended, goes_on, ends, Fed, feed-Fed, after_chunk}
use house_panel.Ota.Keystream.Ctr.{ctr, start-IsAt}
use house_panel.Ota.Receiver.Session.{Hashes, Stores, InSession, image_of, chunk-InSession}
use house_panel.Ota.Receiver.{
  Receiver, slice, authentic, session_key, begin, feed, fail, search_identity, new_session,
}

module _ (c : Crypto) {S : Type 0} (k : Sink S) where
  -- The body in chunks, up to the first that is refused.
  unfoldable pub feed_all : Receiver c → S → List Bytes → Bool × Receiver c × S
  feed_all r s [] = (true, r, s)
  feed_all r s (chunk ∷ chunks) =
      let (ok, r', s') = feed c k r s chunk in
      elim ok [ true ↦ feed_all r' s' chunks | false ↦ (false, r', s') ]

  pub feed_detached :
      (r : Receiver c) (s : S) (chunk : Bytes) → r.sink ≡ false → (feed c k r s chunk).0 ≡ false
  unfolding feed fail
  feed_detached r s chunk h = ground arith

module _ (c : Crypto) {S : Type 0} (k : Sink S) (h : Hashes c) (p : Stores k) where
  open h use {Absorbed, digest}
  open p use {Holds, Published}

  -- The body fits the terms of the session `r`, and its image is published.
  record Verified (r : Receiver c) (s : S) (body : Bytes) : Type 0 where
    size_is : length body ≡ r.image_size
    wire_ok : digest body ≡ r.wire_digest
    plain_ok : digest (image_of c r body) ≡ r.plain_digest
    bootable : 8 ≤ length body → vectors_ok (take 8 (image_of c r body)) r.image_size ≡ true
    found : (scan r.identity 0 (image_of c r body)).1 ≡ true
    published : Published s (image_of c r body)

  made_of :
      (ctx : c.Sha) (xs out : Bytes)
      → Absorbed ctx xs
      → c.sha_finish ctx ≡ some out
      → IsByteList out
  made_of ctx xs out a f =
      subst IsByteList (sym (h.finish_lem ctx xs out a f)) (h.digest-IsByteList xs)

  Ended-Verified :
      (r r' : Receiver c) (s s' : S) (body : Bytes)
      → IsByteList r.plain_digest
      → IsByteList r.wire_digest
      → InSession c k h p r s body
      → r.remaining ≡ 0
      → Ended c k r s r' s'
      → Verified r s' body
  Ended-Verified r r' s s' body bp bw i z e = record {
    size_is = omega (arith, i.count);
    wire_ok =
        sym (h.finish_lem r.wire body e.wire' i.wire_is e.wire_is)
        ∙ (equal_iff e.wire' r.wire_digest (made_of r.wire body e.wire' i.wire_is e.wire_is) bw).0
            e.wire_ok;
    plain_ok =
        sym (h.finish_lem r.plain _ e.plain' i.plain_is e.plain_is)
        ∙ (equal_iff e.plain' r.plain_digest (made_of r.plain _ e.plain' i.plain_is e.plain_is)
              bp).0
            e.plain_ok;
    bootable =
        λ eight. subst (λ v. vectors_ok v r.image_size ≡ true) i.vectors_are (i.checked eight);
    found = ap (λ q. q.1) i.search_is ∙ e.found;
    published = p.finish_lem s s' _ i.holds e.finished;
  }

  -- The terms of a session do not change while it is fed.
  same_terms :
      (r q : Receiver c) (s t s' : S) (chunk body : Bytes) (f : Fed c k r s chunk q t)
      → Verified (after_chunk c k r f.wire' f.cipher' f.plain' f.image) s' body
      → Verified r s' body
  unfolding search_identity
  same_terms r q s t s' chunk body f v = record {
    size_is = v.size_is;
    wire_ok = v.wire_ok;
    plain_ok = v.plain_ok;
    bootable = v.bootable;
    found = v.found;
    published = v.published;
  }

  no_more :
      (q r' : Receiver c) (t s' : S) (chunks : List Bytes)
      → q.sink ≡ false
      → feed_all c k q t chunks ≡ (true, r', s')
      → (chunks ≡ []) × (t ≡ s')
  unfolding feed_all
  no_more q r' t s' [] off run = (refl, ap (λ (u : Bool × Receiver c × S). u.2) run)
  no_more q r' t s' (x ∷ xs) off run = ground (arith, feed_detached c k q t x off)

  feed_all-Verified :
      (chunks : List Bytes) (r r' : Receiver c) (s s' : S) (body : Bytes)
      → IsByteList r.plain_digest
      → IsByteList r.wire_digest
      → InSession c k h p r s body
      → feed_all c k r s chunks ≡ (true, r', s')
      → r'.complete ≡ true
      → Verified r s' (body ++ flatten chunks)
  unfolding feed_all flatten search_identity
  feed_all-Verified [] r r' s s' body bp bw i run done =
      cc (ap (λ (q : Bool × Receiver c × S). q.1.complete) run, i.pending)
  feed_all-Verified (chunk ∷ chunks) r r' s s' body bp bw i run done =
      elim (Bool-cases (feed c k r s chunk).0) [
        | inl fed ↦
            let q = (feed c k r s chunk).1 in
            let t = (feed c k r s chunk).2 in
            let f : Fed c k r s chunk q t = feed-Fed c k r q s t chunk (ground arith) in
            let rest : feed_all c k q t chunks ≡ (true, r', s') = ground arith in
            let i' = chunk-InSession c k h p r q s t body chunk i f in
            subst (Verified r s') (append_assoc body chunk (flatten chunks)) (elim f.outcome [
              | goes_on more eq et ↦ same_terms r q s t s' chunk _ f (
                  feed_all-Verified chunks _ r' f.t s' (body ++ chunk) bp bw i'
                    (subst (λ u. feed_all c k u f.t chunks ≡ (true, r', s')) eq
                      (subst (λ u. feed_all c k q u chunks ≡ (true, r', s')) et rest))
                    done)
              | ends none_left e ↦
                  let (last_chunk, last) =
                    no_more q r' t s' chunks (ap (λ (u : Receiver c). u.sink) e.last) rest in
                  subst (λ u. Verified r s' ((body ++ chunk) ++ flatten u)) (sym last_chunk)
                    (subst (Verified r s') (sym (append-nil (body ++ chunk))) (
                      subst (λ u. Verified r u (body ++ chunk)) last
                        (same_terms r q s t t chunk (body ++ chunk) f
                          (Ended-Verified _ q f.t t (body ++ chunk) bp bw i' none_left e))))
            ])
        | inr refused ↦ ground arith
      ]

  -- What a completed update has installed.
  pub record Installed (r : Receiver c) (header : Bytes) (aes : c.Aes) (s : S) (body : Bytes)
      : Type 0 where
    pub size_is : length body ≡ be32 0 (slice 9 4 header)
    pub wire_digest_is : digest body ≡ slice 77 32 header
    pub plain_digest_is : digest (image_of c (record r { aes = aes }) body) ≡ slice 45 32 header
    pub bootable : IsBootable (take 8 (image_of c (record r { aes = aes }) body)) (length body)
    pub identity_in : Occurs r.identity (image_of c (record r { aes = aes }) body)
    pub published : Published s (image_of c (record r { aes = aes }) body)

  pub Opened-InSession :
      (r r' : Receiver c) (s s' : S) (header : Bytes)
      → (o : Opened c k r header r') → k.open_sink s ≡ (true, s')
      → InSession c k h p r' s' []
  unfolding new_session ctr scan
  Opened-InSession r r' s s' header o e =
      subst (λ u. InSession c k h p u s' []) (sym o.fields)
        (record {
          pending = refl;
          count = omega arith;
          place = start-IsAt _ _ refl;
          wire_is = h.starts_lem r.wire r'.wire o.started_wire;
          plain_is = h.starts_lem r.plain r'.plain o.started;
          vectors_are = refl;
          checked = λ eight. absurd (omega arith);
          search_is = refl;
          holds = p.open_lem s s' e;
        })

  Verified-Installed :
      (r r' : Receiver c) (s : S) (header body : Bytes)
      → Opened c k r header r'
      → Admitted c r header
      → r.identity ≢ []
      → Verified r' s body
      → (session_key c r ≡ some r'.aes) × Installed r header r'.aes s body
  unfolding new_session
  Verified-Installed r r' s header body o a named v' =
      let v = subst (λ u. Verified u s body) o.fields v' in
      let same : r'.aes ≡ o.aes = ap (λ (u : Receiver c). u.aes) o.fields in
      (
        o.aes_is ∙ ap some (sym same),
        subst (λ u. Installed r header u s body) (sym same)
            (record {
              size_is = v.size_is;
              wire_digest_is = v.wire_ok;
              plain_digest_is = v.plain_ok;
              bootable = vectors_ok-IsBootable _ (length body) (
                  subst
                    (λ n. vectors_ok (take 8 (image_of c (record r { aes = o.aes }) body)) n ≡ true)
                    (sym v.size_is) (v.bootable (omega (arith, v.size_is, a.size_low))));
              identity_in = scan_sound r.identity _ named v.found;
              published = v.published;
            }),
      )

  digests-IsByteList :
      (r r' : Receiver c) (header : Bytes)
      → IsByteList header
      → Opened c k r header r'
      → IsByteList r'.plain_digest × IsByteList r'.wire_digest
  unfolding new_session
  digests-IsByteList r r' header b o = (
    subst (λ (u : Receiver c). IsByteList u.plain_digest) (sym o.fields)
        (take-IsByteList 32 _ (drop-IsByteList 45 header b)),
    subst (λ (u : Receiver c). IsByteList u.wire_digest) (sym o.fields)
        (take-IsByteList 32 _ (drop-IsByteList 77 header b)),
  )

  -- If `begin` accepts a header, every chunk that follows is accepted, and the receiver then says
  -- that the update is complete, and its identity is not empty, then the receiver was idle and
  -- challenged, the header is for its panel, its nonce and a size in bounds, and authentic under
  -- its key; the fed bytes have the header's size and wire digest; and the image that they decrypt
  -- to in counter mode under the session's key has the header's plain digest, begins with a
  -- bootable vector table, contains the receiver's identity, and is what the sink has published.
  -- SHA-256 in pieces and the sink are assumed to keep what they are given.
  pub update_sound :
      (r r₁ r₂ : Receiver c) (s s₁ s₂ : S) (header : Bytes) (chunks : List Bytes)
      → IsByteList header
      → r.identity ≢ []
      → begin c k r s header ≡ (true, r₁, s₁)
      → feed_all c k r₁ s₁ chunks ≡ (true, r₂, s₂)
      → r₂.complete ≡ true
      → Admitted c r header
        × (authentic c r header ≡ true)
        × (session_key c r ≡ some r₁.aes)
        × Installed r header r₁.aes s₂ (flatten chunks)
  update_sound r r₁ r₂ s s₁ s₂ header chunks bytes named b f done =
      let (a, auth, o, e) = begin-Opened c k r r₁ s s₁ header b in
      let kept = digests-IsByteList r r₁ header bytes o in
      let v =
        feed_all-Verified chunks r₁ r₂ s₁ s₂ [] kept.0 kept.1
          (Opened-InSession r r₁ s s₁ header o e) f done in
      let (key, installed) = Verified-Installed r r₁ s₂ header (flatten chunks) o a named v in
      (a, auth, key, installed)
