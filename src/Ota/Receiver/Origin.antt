-- ===== src/Ota/Receiver/Origin.antt =====
-- What begin and feed of OtaReceiver (ota_protocol.cpp) leave in the receiver: the fields that
-- `configure` sets, and where an attached sink or a completed update comes from.
use house_panel.Base.{
  ◌≡◌, ◌-◌, refl, sym, ◌∙◌, Bool, true, false, not, ◌&&◌, ◌||◌, ◌==◌, ltb, arith, Bytes, length,
  if_both, option_both,
}
use house_panel.Ota.Bits.{equal}
use house_panel.Ota.Crypto.{Crypto, Sink}
use house_panel.Ota.Keystream.{crypt}
use house_panel.Ota.Receiver.Vectors.{vectors_ok}
use house_panel.Ota.Receiver.{
  Receiver, admits, authentic, begin, attach, start_digests, open_session, new_session, session_key,
  fail, feed, finalize, store, inspect, digest_plain, decrypt, search_identity, fill_vectors, abort,
}

module _ (c : Crypto) where
  -- A sink is attached, or the update is complete.
  abbrev pub in_use : Receiver c → Bool
  in_use r = r.sink || r.complete

  -- What a step keeps.
  pub record Keeps (r r' : Receiver c) : Type 0 where
    pub key_is : r'.key ≡ r.key
    pub panel_is : r'.panel ≡ r.panel
    pub identity_is : r'.identity ≡ r.identity
    pub apart : (r.complete ≡ true → r.sink ≡ false) → r'.complete ≡ true → r'.sink ≡ false

  Keeps-unset :
      (r r' : Receiver c)
      → r'.key ≡ r.key
      → r'.panel ≡ r.panel
      → r'.identity ≡ r.identity
      → r'.sink ≡ r.sink
      → r'.complete ≡ r.complete
      → Keeps r r'
  Keeps-unset r r' key panel identity sink complete = record {
    key_is = key;
    panel_is = panel;
    identity_is = identity;
    apart = λ h e. sink ∙ h (sym complete ∙ e);
  }

  Keeps-trans : (q r r' : Receiver c) → Keeps q r → Keeps r r' → Keeps q r'
  Keeps-trans q r r' a b = record {
    key_is = b.key_is ∙ a.key_is;
    panel_is = b.panel_is ∙ a.panel_is;
    identity_is = b.identity_is ∙ a.identity_is;
    apart = λ h. b.apart (a.apart h);
  }

module _ (c : Crypto) {S : Type 0} (k : Sink S) where
  abbrev KeepsIn : Receiver c → Bool × Receiver c × S → Type 0
  KeepsIn r q = Keeps c r q.1

  -- A refusal leaves no session and nothing complete.
  abbrev Refuses : Bool × Receiver c × S → Type 0
  Refuses q = q.0 ≡ false → in_use c q.1 ≡ false

  fail-Keeps : (r : Receiver c) (s : S) → KeepsIn r (fail c k r s)
  unfolding fail abort
  fail-Keeps r s = record {
    key_is = refl;
    panel_is = refl;
    identity_is = refl;
    apart = λ h e. refl;
  }

  attach-Keeps : (r : Receiver c) (s : S) → r.complete ≡ false → KeepsIn r (attach c k r s)
  unfolding attach
  attach-Keeps r s new =
      if_both (KeepsIn r) (k.open_sink s).0 _ _
        (record { key_is = refl; panel_is = refl; identity_is = refl; apart = λ h e. cc (new, e) })
        (Keeps-trans c r (record r { sink = true }) _
          (record {
            key_is = refl;
            panel_is = refl;
            identity_is = refl;
            apart = λ h e. cc (new, e);
          })
          (fail-Keeps _ (k.open_sink s).1))

  attach-Refuses : (r : Receiver c) (s : S) → Refuses (attach c k r s)
  unfolding attach fail
  attach-Refuses r s = if_both Refuses (k.open_sink s).0 _ _ (λ e. ground (arith, e)) (λ e. refl)

  start_digests-Keeps :
      (r : Receiver c) (s : S) → r.complete ≡ false → KeepsIn r (start_digests c k r s)
  unfolding start_digests
  start_digests-Keeps r s new =
      option_both (KeepsIn r) (c.sha_starts r.plain) _ _
        (Keeps-unset c r _ refl refl refl refl refl)
        λ plain'.
          option_both (KeepsIn r) (c.sha_starts r.wire) _ _
            (Keeps-unset c r _ refl refl refl refl refl)
            λ wire'.
              Keeps-trans c r (record r { plain = plain'; wire = wire' }) _
                (Keeps-unset c r _ refl refl refl refl refl)
                (attach-Keeps (record r { plain = plain'; wire = wire' }) s new)

  start_digests-Refuses :
      (r : Receiver c) (s : S) → in_use c r ≡ false → Refuses (start_digests c k r s)
  unfolding start_digests
  start_digests-Refuses r s off =
      option_both Refuses (c.sha_starts r.plain) _ _ (λ e. off)
        λ plain'.
          option_both Refuses (c.sha_starts r.wire) _ _ (λ e. off)
            λ wire'. attach-Refuses (record r { plain = plain'; wire = wire' }) s

  open_session-Keeps :
      (r : Receiver c) (s : S) (header : Bytes) → KeepsIn r (open_session c k r s header)
  unfolding open_session new_session
  open_session-Keeps r s header =
      option_both (KeepsIn r) (session_key c r) _ _ (Keeps-unset c r _ refl refl refl refl refl)
        λ aes'.
          let r' = new_session c (record r { issued = false }) aes' header in
          Keeps-trans c r r' _
            (record { key_is = refl; panel_is = refl; identity_is = refl; apart = λ h e. cc (e) })
            (start_digests-Keeps r' s refl)

  open_session-Refuses :
      (r : Receiver c) (s : S) (header : Bytes)
      → in_use c r ≡ false
      → Refuses (open_session c k r s header)
  unfolding open_session new_session
  open_session-Refuses r s header off =
      option_both Refuses (session_key c r) _ _ (λ e. off)
        λ aes'.
          start_digests-Refuses (new_session c (record r { issued = false }) aes' header) s
            (ground (arith, off))

  pub begin-Keeps : (r : Receiver c) (s : S) (header : Bytes) → KeepsIn r (begin c k r s header)
  unfolding begin
  begin-Keeps r s header =
      if_both (KeepsIn r) (admits c r header && authentic c r header) _ _
        (open_session-Keeps r s header) (Keeps-unset c r _ refl refl refl refl refl)

  pub begin-Refuses :
      (r : Receiver c) (s : S) (header : Bytes)
      → in_use c r ≡ false
      → Refuses (begin c k r s header)
  unfolding begin
  begin-Refuses r s header off =
      if_both Refuses (admits c r header && authentic c r header) _ _
        (open_session-Refuses r s header off) (λ e. off)

  -- The steps of a chunk that set none of these fields.
  finalize-Keeps : (r : Receiver c) (s : S) → KeepsIn r (finalize c k r s)
  unfolding finalize
  finalize-Keeps r s = option_both (KeepsIn r) (c.sha_finish r.plain) _ _ (fail-Keeps r s) λ plain'.
      option_both (KeepsIn r) (c.sha_finish r.wire) _ _ (fail-Keeps r s) λ wire'.
        if_both (KeepsIn r)
          (equal plain' r.plain_digest && equal wire' r.wire_digest && r.identity_found) _ _
          (if_both (KeepsIn r) (k.finish s).0 _ _
            (record { key_is = refl; panel_is = refl; identity_is = refl; apart = λ h e. refl })
            (fail-Keeps r (k.finish s).1))
          (fail-Keeps r s)

  store-Keeps : (r : Receiver c) (s : S) (image : Bytes) → KeepsIn r (store c k r s image)
  unfolding store
  store-Keeps r s image =
      let r' : Receiver c = record r { remaining = r.remaining - length image } in
      let t = (k.write image s).1 in
      let same : Keeps c r r' = Keeps-unset c r _ refl refl refl refl refl in
      if_both (KeepsIn r) (k.write image s).0 _ _
        (if_both (KeepsIn r) (r'.remaining == 0) _ _
          (Keeps-trans c r r' _ same (finalize-Keeps r' t)) same)
        (fail-Keeps r t)

  inspect-Keeps : (r : Receiver c) (s : S) (image : Bytes) → KeepsIn r (inspect c k r s image)
  unfolding inspect search_identity
  inspect-Keeps r s image =
      let r' : Receiver c = record r { vectors = fill_vectors r.vectors image } in
      if_both (KeepsIn r) (length r'.vectors == 8 && not (vectors_ok r'.vectors r'.image_size)) _ _
        (Keeps-trans c r r' _ (Keeps-unset c r _ refl refl refl refl refl) (fail-Keeps r' s))
        (Keeps-trans c r (search_identity c r' image) _ (Keeps-unset c r _ refl refl refl refl refl)
          (store-Keeps (search_identity c r' image) s image))

  digest_plain-Keeps :
      (r : Receiver c) (s : S) (image : Bytes) → KeepsIn r (digest_plain c k r s image)
  unfolding digest_plain
  digest_plain-Keeps r s image =
      option_both (KeepsIn r) (c.sha_update r.plain image) _ _ (fail-Keeps r s) λ plain'.
        Keeps-trans c r (record r { plain = plain' }) _ (Keeps-unset c r _ refl refl refl refl refl)
          (inspect-Keeps (record r { plain = plain' }) s image)

  decrypt-Keeps : (r : Receiver c) (s : S) (body : Bytes) → KeepsIn r (decrypt c k r s body)
  unfolding decrypt
  decrypt-Keeps r s body =
      let out = crypt (c.crypt_ecb r.aes) r.cipher body in
      let r' : Receiver c = record r { cipher = out.1 } in
      let same : Keeps c r r' = Keeps-unset c r _ refl refl refl refl refl in
      if_both (KeepsIn r) out.0 _ _ (Keeps-trans c r r' _ same (digest_plain-Keeps r' s out.2))
        (Keeps-trans c r r' _ same (fail-Keeps r' s))

  pub feed-Keeps : (r : Receiver c) (s : S) (body : Bytes) → KeepsIn r (feed c k r s body)
  unfolding feed
  feed-Keeps r s body =
      if_both (KeepsIn r) (not r.sink || length body == 0 || ltb r.remaining (length body)) _ _
        (fail-Keeps r s)
        (option_both (KeepsIn r) (c.sha_update r.wire body) _ _ (fail-Keeps r s) λ wire'.
          Keeps-trans c r (record r { wire = wire' }) _ (Keeps-unset c r _ refl refl refl refl refl)
            (decrypt-Keeps (record r { wire = wire' }) s body))
