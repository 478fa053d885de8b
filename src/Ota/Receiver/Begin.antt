-- ===== src/Ota/Receiver/Begin.antt =====
-- The headers that OtaReceiver::begin (ota_protocol.cpp) accepts.
use house_panel.Base.{
  ◌≤◌, ◌≡◌, inl, inr, true, false, some, arith, Bytes, take, get_or, bytes_eq_iff, Bool-cases,
  Option-cases,
}
use house_panel.Ota.Bits.{equal, be32}
use house_panel.Ota.Crypto.{Crypto, Sink}
use house_panel.Ota.Receiver.{
  Receiver, ota_max_image, upload_magic, slice, admits, authentic, session_key, begin,
  start_digests, open_session, new_session,
}

-- What the header of an accepted session says, and the receiver before it.
pub record Admitted (c : Crypto) (r : Receiver c) (header : Bytes) : Type 0 where
  pub idle : r.sink ≡ false
  pub challenged : r.issued ≡ true
  pub magic : take 8 header ≡ upload_magic
  pub panel_is : get_or header 8 0 ≡ r.panel
  pub nonce_is : equal (slice 13 32 header) r.nonce ≡ true
  pub size_low : 256 ≤ be32 0 (slice 9 4 header)
  pub size_high : be32 0 (slice 9 4 header) ≤ ota_max_image

module _ (c : Crypto) where
  pub admits-Admitted :
      (r : Receiver c) (header : Bytes) → admits c r header ≡ true → Admitted c r header
  unfolding admits
  admits-Admitted r header h = ground (arith, bytes_eq_iff (take 8 header) upload_magic)

module _ (c : Crypto) {S : Type 0} (k : Sink S) where
  -- The receiver at the start of a session, but for the digest contexts.
  pub record Opened (r : Receiver c) (header : Bytes) (r' : Receiver c) : Type 0 where
    pub aes : c.Aes
    pub aes_is : session_key c r ≡ some aes
    pub started : c.sha_starts r.plain ≡ some r'.plain
    pub started_wire : c.sha_starts r.wire ≡ some r'.wire
    pub fields : r' ≡ record (new_session c (record r { issued = false }) aes header) {
      sink = true;
      plain = r'.plain;
      wire = r'.wire;
    }

  start_digests-Opened :
      (r r' : Receiver c) (s s' : S)
      → start_digests c k r s ≡ (true, r', s')
      → (c.sha_starts r.plain ≡ some r'.plain)
        × (c.sha_starts r.wire ≡ some r'.wire)
        × (r' ≡ record r { sink = true; plain = r'.plain; wire = r'.wire })
        × (k.open_sink s ≡ (true, s'))
  unfolding start_digests
  start_digests-Opened r r' s s' h = ground arith

  pub begin-Opened :
      (r r' : Receiver c) (s s' : S) (header : Bytes)
      → begin c k r s header ≡ (true, r', s')
      → Admitted c r header
        × (authentic c r header ≡ true)
        × Opened r header r'
        × (k.open_sink s ≡ (true, s'))
  unfolding begin open_session
  begin-Opened r r' s s' header h = elim (Bool-cases (admits c r header)) [
    | inl a ↦ elim (Option-cases (session_key c r)) [
      | inl e ↦ ground arith
      | inr (aes, e) ↦
          let start =
            start_digests-Opened (new_session c (record r { issued = false }) aes header) r' s s'
              (ground arith) in
          (
            admits-Admitted c r header a,
            ground arith,
            record {
              aes = aes;
              aes_is = e;
              started = start.0;
              started_wire = start.1;
              fields = start.2;
            },
            start.3,
          )
    ]
    | inr n ↦ ground arith
  ]
