-- ===== src/Ota/Receiver/Trace.antt =====
-- Where the receiver's session comes from (ota_protocol.cpp): the `begin` and the chunks before.
use house_panel.Base.{
  some, ◌≡◌, ◌≢◌, refl, sym, ◌∙◌, inl, inr, true, false, arith, List, [], ◌∷◌, ◌++◌, Bytes,
  Bool-cases, IsByteList,
}
use mathlib.Core.List.{flatten}
use house_panel.Ota.Crypto.{Crypto, Sink}
use house_panel.Ota.Receiver.Begin.{Admitted}
use house_panel.Ota.Receiver.Session.{Hashes, Stores}
use house_panel.Ota.Receiver.Replay.{feed-Settled}
use house_panel.Ota.Receiver.Origin.{in_use, begin-Keeps, begin-Refuses, feed-Keeps}
use house_panel.Ota.Receiver.Update.{feed_all, feed_detached, Installed, update_sound}
use house_panel.Ota.Receiver.{Receiver, authentic, session_key, begin, feed, challenge, abort}

module _ (c : Crypto) {S : Type 0} (k : Sink S) where
  feed_all-append :
      (chunks : List Bytes) (r r' q : Receiver c) (s t u : S) (chunk : Bytes)
      → feed_all c k r s chunks ≡ (true, r', t)
      → feed c k r' t chunk ≡ (true, q, u)
      → feed_all c k r s (chunks ++ (chunk ∷ [])) ≡ (true, q, u)
  unfolding feed_all
  feed_all-append [] r r' q s t u chunk e f = ground (arith, e, f)
  feed_all-append (x ∷ chunks) r r' q s t u chunk e f = elim (Bool-cases (feed c k r s x).0) [
    | inl fed ↦
        rw (fed, feed_all)
          (feed_all-append chunks (feed c k r s x).1 r' q (feed c k r s x).2 t u chunk
            (ground arith) f)
    | inr refused ↦ ground arith
  ]

module _ (c : Crypto) {S : Type 0} (k : Sink S) (o : Receiver c) where
  -- The receiver `r` has the setup of `o`.
  record IsOwned (r : Receiver c) : Type 0 where
    pub key_is : r.key ≡ o.key
    pub panel_is : r.panel ≡ o.panel
    pub identity_is : r.identity ≡ o.identity

  -- The session that has led to `r` and the sink `t`.
  record Session (r : Receiver c) (t : S) : Type 0 where
    before : Receiver c
    owned : IsOwned before
    sink_before : S
    opened : Receiver c
    sink_opened : S
    header : Bytes
    header_bytes : IsByteList header
    chunks : List Bytes
    began : begin c k before sink_before header ≡ (true, opened, sink_opened)
    fed : feed_all c k opened sink_opened chunks ≡ (true, r, t)

  -- The setup is that of `o`; a complete update has left the sink; and an attached sink and a complete
  -- update have a session.
  pub record Traced (r : Receiver c) (t : S) : Type 0 where
    owned : IsOwned r
    pub apart : r.complete ≡ true → r.sink ≡ false
    session : in_use c r ≡ true → Session r t

  pub owner-Traced : (t : S) → in_use c o ≡ false → Traced o t
  owner-Traced t off = record {
    owned = record { key_is = refl; panel_is = refl; identity_is = refl };
    apart = λ e. ground (arith, e, off);
    session = λ e. cc (e, off);
  }

  pub abort-Traced :
      (r : Receiver c) (t : S) → Traced r t → Traced (abort c k r t).0 (abort c k r t).1
  unfolding abort
  abort-Traced r t v = record {
    owned = record {
      key_is = v.owned.key_is;
      panel_is = v.owned.panel_is;
      identity_is = v.owned.identity_is;
    };
    apart = λ e. refl;
    session = λ e. cc (e);
  }

  pub challenge-Traced :
      (r : Receiver c) (t : S) (nonce : Bytes)
      → in_use c r ≡ false
      → Traced r t
      → Traced (challenge c r nonce) t
  unfolding challenge
  challenge-Traced r t nonce off v = record {
    owned = record {
      key_is = v.owned.key_is;
      panel_is = v.owned.panel_is;
      identity_is = v.owned.identity_is;
    };
    apart = v.apart;
    session = λ e. cc (e, off);
  }

  pub begin-Traced :
      (r : Receiver c) (t : S) (header : Bytes)
      → IsByteList header
      → in_use c r ≡ false
      → Traced r t
      → Traced (begin c k r t header).1 (begin c k r t header).2
  unfolding feed_all
  begin-Traced r t header bytes off v =
      let b = begin-Keeps c k r t header in
      record {
        owned = record {
          key_is = b.key_is ∙ v.owned.key_is;
          panel_is = b.panel_is ∙ v.owned.panel_is;
          identity_is = b.identity_is ∙ v.owned.identity_is;
        };
        apart = b.apart v.apart;
        session = λ e. elim (Bool-cases (begin c k r t header).0) [
          | inl ok ↦ record {
            before = r;
            owned = v.owned;
            sink_before = t;
            opened = (begin c k r t header).1;
            sink_opened = (begin c k r t header).2;
            header = header;
            header_bytes = bytes;
            chunks = [];
            began = ground arith;
            fed = refl;
          }
          | inr refused ↦ let gone = begin-Refuses c k r t header off refused in cc (e, gone)
        ];
      }

  pub feed-Traced :
      (r : Receiver c) (t : S) (body : Bytes)
      → Traced r t
      → Traced (feed c k r t body).1 (feed c k r t body).2
  feed-Traced r t body v =
      let b = feed-Keeps c k r t body in
      record {
        owned = record {
          key_is = b.key_is ∙ v.owned.key_is;
          panel_is = b.panel_is ∙ v.owned.panel_is;
          identity_is = b.identity_is ∙ v.owned.identity_is;
        };
        apart = b.apart v.apart;
        session = λ e. elim (Bool-cases (feed c k r t body).0) [
          | inl ok ↦
              let on : in_use c r ≡ true = elim (Bool-cases r.sink) [
                | inl attached ↦ ground (arith, attached)
                | inr off ↦ let refused = feed_detached c k r t body off in cc (ok, refused)
              ] in
              let z = v.session on in
              record {
                before = z.before;
                owned = z.owned;
                sink_before = z.sink_before;
                opened = z.opened;
                sink_opened = z.sink_opened;
                header = z.header;
                header_bytes = z.header_bytes;
                chunks = z.chunks ++ (body ∷ []);
                began = z.began;
                fed =
                    feed_all-append c k z.chunks z.opened r _ z.sink_opened t _ body z.fed
                      (ground arith);
              }
          | inr refused ↦
              let gone = (feed-Settled c k r t body).idle refused in ground (arith, e, gone)
        ];
      }

module _ (c : Crypto) {S : Type 0} (k : Sink S) (h : Hashes c) (p : Stores k) (o : Receiver c) where
  -- What is in the sink `t` was authenticated under the setup of `o`, and is what its header says.
  pub record Authorized (t : S) : Type 0 where
    pub challenged : Receiver c
    pub key_is : challenged.key ≡ o.key
    pub panel_is : challenged.panel ≡ o.panel
    pub identity_is : challenged.identity ≡ o.identity
    pub aes : c.Aes
    pub header : Bytes
    pub body : Bytes
    pub admitted : Admitted c challenged header
    pub tag_ok : authentic c challenged header ≡ true
    pub aes_is : session_key c challenged ≡ some aes
    pub installed : Installed c k h p challenged header aes t body

  pub Traced-Authorized :
      (r : Receiver c) (t : S)
      → o.identity ≢ []
      → Traced c k o r t
      → r.complete ≡ true
      → Authorized t
  Traced-Authorized r t named v done =
      let z = v.session (ground (arith, done)) in
      let (a, auth, key, installed) =
        update_sound c k h p z.before z.opened r z.sink_before z.sink_opened t z.header z.chunks
          z.header_bytes (λ e. named (sym z.owned.identity_is ∙ e)) z.began z.fed done in
      record {
        challenged = z.before;
        key_is = z.owned.key_is;
        panel_is = z.owned.panel_is;
        identity_is = z.owned.identity_is;
        aes = z.opened.aes;
        header = z.header;
        body = flatten z.chunks;
        admitted = a;
        tag_ok = auth;
        aes_is = key;
        installed = installed;
      }
