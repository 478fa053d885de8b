-- ===== src/Ota/Receiver/Replay.antt =====
-- The challenge and the session of OtaReceiver (ota_protocol.cpp) over attempts and chunks.
use house_panel.Base.{
  ◌-◌, ◌≡◌, refl, ◌∙◌, inl, inr, Bool, true, false, not, ◌&&◌, ◌||◌, ltb, arith, List, [], ◌∷◌,
  Bytes, length, Bool-cases, if_both, option_both, ◌==◌,
}
use house_panel.Ota.Bits.{equal}
use house_panel.Ota.Crypto.{Crypto, Sink}
use house_panel.Ota.Keystream.{crypt}
use house_panel.Ota.Receiver.Vectors.{vectors_ok}
use house_panel.Ota.Receiver.{
  Receiver, admits, authentic, begin, attach, start_digests, open_session, new_session, fail, feed,
  finalize, store, inspect, digest_plain, decrypt, search_identity, fill_vectors,
}
use house_panel.Ota.Receiver.Update.{feed_all}

module _ (c : Crypto) {S : Type 0} (k : Sink S) where
  -- How a step of a chunk ends: the challenge is as it was; a refusal leaves no session, and its last
  -- call of an attached sink is `abort`.
  pub record Settled (r : Receiver c) (q : Bool × Receiver c × S) : Type 0 where
    pub kept : q.1.issued ≡ r.issued
    pub idle : q.0 ≡ false → (q.1.sink ≡ false) × (q.1.remaining ≡ 0) × (q.1.complete ≡ false)
    pub discarded : q.0 ≡ false → r.sink ≡ true → (t : S) × (q.2 ≡ k.discard t)

  fail-Settled : (r : Receiver c) (s : S) → Settled r (fail c k r s)
  unfolding fail
  fail-Settled r s = record {
    kept = refl;
    idle = λ e. (refl, refl, refl);
    discarded = λ e on. (s, ground arith);
  }

  taken-Settled : (r r' : Receiver c) (s : S) → r'.issued ≡ r.issued → Settled r (true, r', s)
  taken-Settled r r' s h = record {
    kept = h;
    idle = λ e. ground (arith, e);
    discarded = λ e on. ground (arith, e);
  }

  finalize-Settled : (r : Receiver c) (s : S) → Settled r (finalize c k r s)
  unfolding finalize
  finalize-Settled r s =
      option_both (Settled r) (c.sha_finish r.plain) _ _ (fail-Settled r s) λ plain'.
        option_both (Settled r) (c.sha_finish r.wire) _ _ (fail-Settled r s) λ wire'.
          if_both (Settled r)
            (equal plain' r.plain_digest && equal wire' r.wire_digest && r.identity_found) _ _
            (if_both (Settled r) (k.finish s).0 _ _ (taken-Settled r _ _ refl)
              (fail-Settled r (k.finish s).1))
            (fail-Settled r s)

  -- The steps before have changed neither the challenge nor whether a sink is attached.
  same-Settled :
      (r r' : Receiver c) (q : Bool × Receiver c × S)
      → r'.issued ≡ r.issued
      → r'.sink ≡ r.sink
      → Settled r' q
      → Settled r q
  same-Settled r r' q h a z = record {
    kept = z.kept ∙ h;
    idle = z.idle;
    discarded = λ e on. z.discarded e (a ∙ on);
  }

  store-Settled : (r : Receiver c) (s : S) (image : Bytes) → Settled r (store c k r s image)
  unfolding store
  store-Settled r s image =
      let r' : Receiver c = record r { remaining = r.remaining - length image } in
      let t = (k.write image s).1 in
      if_both (Settled r) (k.write image s).0 _ _
        (if_both (Settled r) (r'.remaining == 0) _ _
          (same-Settled r r' _ refl refl (finalize-Settled r' t)) (taken-Settled r r' t refl))
        (fail-Settled r t)

  inspect-Settled : (r : Receiver c) (s : S) (image : Bytes) → Settled r (inspect c k r s image)
  unfolding inspect search_identity
  inspect-Settled r s image =
      let r' : Receiver c = record r { vectors = fill_vectors r.vectors image } in
      if_both (Settled r) (length r'.vectors == 8 && not (vectors_ok r'.vectors r'.image_size)) _ _
        (same-Settled r r' _ refl refl (fail-Settled r' s))
        (same-Settled r (search_identity c r' image) _ refl refl
          (store-Settled (search_identity c r' image) s image))

  digest_plain-Settled :
      (r : Receiver c) (s : S) (image : Bytes) → Settled r (digest_plain c k r s image)
  unfolding digest_plain
  digest_plain-Settled r s image =
      option_both (Settled r) (c.sha_update r.plain image) _ _ (fail-Settled r s) λ plain'.
        same-Settled r _ _ refl refl (inspect-Settled (record r { plain = plain' }) s image)

  decrypt-Settled : (r : Receiver c) (s : S) (body : Bytes) → Settled r (decrypt c k r s body)
  unfolding decrypt
  decrypt-Settled r s body =
      let out = crypt (c.crypt_ecb r.aes) r.cipher body in
      let r' : Receiver c = record r { cipher = out.1 } in
      if_both (Settled r) out.0 _ _
        (same-Settled r r' _ refl refl (digest_plain-Settled r' s out.2))
        (same-Settled r r' _ refl refl (fail-Settled r' s))

  -- A chunk, whether it is taken or refused, leaves the challenge as it was; a refused chunk leaves no
  -- session and nothing complete, and the last call that it makes of an attached sink is `abort`.
  pub feed-Settled : (r : Receiver c) (s : S) (body : Bytes) → Settled r (feed c k r s body)
  unfolding feed
  feed-Settled r s body =
      if_both (Settled r) (not r.sink || length body == 0 || ltb r.remaining (length body)) _ _
        (fail-Settled r s)
        (option_both (Settled r) (c.sha_update r.wire body) _ _ (fail-Settled r s) λ wire'.
          same-Settled r _ _ refl refl (decrypt-Settled (record r { wire = wire' }) s body))

  feed_all-issued :
      (chunks : List Bytes) (r : Receiver c) (s : S) → (feed_all c k r s chunks).1.issued ≡ r.issued
  unfolding feed_all
  feed_all-issued [] r s = refl
  feed_all-issued (chunk ∷ chunks) r s = elim (Bool-cases (feed c k r s chunk).0) [
    | inl e ↦
        rw (e, feed_all)
          (feed_all-issued chunks (feed c k r s chunk).1 (feed c k r s chunk).2
            ∙ (feed-Settled r s chunk).kept)
    | inr e ↦ rw (e, feed_all) (feed-Settled r s chunk).kept
  ]

  -- Without a challenge nothing begins, and nothing changes.
  pub begin_unchallenged :
      (r : Receiver c) (s : S) (header : Bytes)
      → r.issued ≡ false
      → begin c k r s header ≡ (false, r, s)
  unfolding begin admits
  begin_unchallenged r s header h = ground arith

  begin-issued :
      (r : Receiver c) (s : S) (header : Bytes)
      → admits c r header ≡ true
      → authentic c r header ≡ true
      → (begin c k r s header).1.issued ≡ false
  unfolding begin open_session new_session start_digests attach fail
  begin-issued r s header a b = ground arith

  -- After an attempt with an authentic header, whether a session opens or storage fails, and whatever
  -- chunks follow, each further attempt is refused and changes nothing until a new challenge: a recorded
  -- update cannot be replayed.
  pub begin_once :
      (r : Receiver c) (s t : S) (header again : Bytes) (chunks : List Bytes)
      → admits c r header ≡ true
      → authentic c r header ≡ true
      → let (ok, r', s') = begin c k r s header in
        let (_, last, _) = feed_all c k r' s' chunks in begin c k last t again ≡ (false, last, t)
  begin_once r s t header again chunks a b =
      let q = begin c k r s header in
      begin_unchallenged (feed_all c k q.1 q.2 chunks).1 t again
        (feed_all-issued chunks q.1 q.2 ∙ begin-issued r s header a b)
