-- ===== src/Ota/Server/Heading.antt =====
-- The header of a client's request in ota_update.cpp: `status` and the loop of `ota_loop` that reads it.
use house_panel.Base.{
  ℕ, ◌≤◌, ◌<◌, ◌≡◌, ◌≢◌, refl, Bool, true, false, not, ◌&&◌, ◌||◌, List, [], ◌∷◌, ◌++◌, arith, ltb,
  ◌==◌, Bytes, bytes_eq, length, length-append, if_both, if_cases, option_both, IsByteList,
  append-IsByteList,
}
use house_panel.Base.Words.{elapsed}
use house_panel.Ota.Crypto.{Crypto, Sink}
use house_panel.Ota.Receiver.{Receiver, ota_header_size, upload_magic, begin, feed, sign}
use house_panel.Ota.Receiver.Origin.{in_use, begin-Refuses}
use house_panel.Ota.Receiver.Trace.{Traced, begin-Traced, challenge-Traced}
use house_panel.Ota.Server.{Config, Server, Pass, Effect, AfterReply, random_bytes}
use house_panel.Ota.Server.Reply.{reply}
use house_panel.Ota.Server.Status.{response_text, response, renew, answer, status}
use house_panel.Ota.Server.Loop.{
  status_magic, refused_text, accepted_text, authorize, take_byte, read_header,
}
use house_panel.Ota.Server.Valid.{IsValid, IsOpen, close_peer-IsValid, reply-IsValid}

module _ (c : Crypto) {S : Type 0} (k : Sink S) (o : Receiver c) (g : Config) where
  -- What holds of the state that a step returns.
  abbrev pub Leaves : Server c S × List Effect → Type 0
  Leaves q = IsValid c k o q.0

  pub refuse-IsValid :
      (s : Server c S) (at : ℕ) (text suffix : Bytes)
      → IsOpen c k o s
      → length text ≢ 0
      → Leaves (reply c k s at text AfterReply.close_after suffix)
  refuse-IsValid s at text suffix w h =
      reply-IsValid c k o s at text AfterReply.close_after suffix w h (λ e. cc) (λ e. cc)

  -- With what `begin` leaves.
  begun-IsOpen :
      (s : Server c S)
      → IsOpen c k o s
      → in_use c s.receiver ≡ false
      → (begin c k s.receiver s.sink s.header).0 ≡ false
      → IsOpen c k o (record s {
        receiver = (begin c k s.receiver s.sink s.header).1;
        sink = (begin c k s.receiver s.sink s.header).2;
      })
  begun-IsOpen s w off refused = record {
    header_fits = w.header_fits;
    peer_is = w.peer_is;
    no_session = λ f. begin-Refuses c k s.receiver s.sink s.header off refused;
    header_bytes = w.header_bytes;
    traced = begin-Traced c k o s.receiver s.sink s.header w.header_bytes off w.traced;
  }

  authorize-IsValid :
      (s : Server c S) (i : Pass) (more : Bytes)
      → IsOpen c k o s
      → in_use c s.receiver ≡ false
      → Leaves (authorize c k g s i more)
  unfolding authorize
  authorize-IsValid s i more w off =
      let t = begin-Traced c k o s.receiver s.sink s.header w.header_bytes off w.traced in
      if_both Leaves (not s.nonce_valid || ltb 60_000 (elapsed i.now s.challenge_at)) _ _
        (refuse-IsValid s i.reply_at refused_text [] w (omega arith))
        (if_cases Leaves (not (begin c k s.receiver s.sink s.header).0) _ _
          (λ e.
            refuse-IsValid _ i.reply_at refused_text [] (begun-IsOpen s w off (ground (arith, e)))
              (omega arith))
          (λ e. if_both Leaves (not (length more == 0)) _ _ (close_peer-IsValid c k o _ t) (
            reply-IsValid c k o _ i.reply_at accepted_text AfterReply.receive_after []
              (record {
                header_fits = w.header_fits;
                peer_is = w.peer_is;
                no_session = λ f. cc (f);
                header_bytes = w.header_bytes;
                traced = t;
              })
              (omega arith) (λ f. cc) (λ f. refl))))

  -- Without a session, `status` may challenge anew.
  renew-IsOpen :
      (s : Server c S) (i : Pass)
      → IsOpen c k o s
      → in_use c s.receiver ≡ false
      → IsOpen c k o (renew c k g s i)
  unfolding renew house_panel.Ota.Receiver.challenge
  renew-IsOpen s i w off =
      let old : IsOpen c k o (record s { nonce_valid = false; nonce_hex = [] }) = record {
        header_fits = w.header_fits;
        peer_is = w.peer_is;
        no_session = w.no_session;
        header_bytes = w.header_bytes;
        traced = w.traced;
      } in
      if_both (IsOpen c k o) s.ready _ _
        (option_both (IsOpen c k o) (random_bytes i.entropy 32) _ _ old λ nonce. record {
          header_fits = w.header_fits;
          peer_is = w.peer_is;
          no_session = w.no_session;
          header_bytes = w.header_bytes;
          traced = challenge-Traced c k o s.receiver s.sink nonce off w.traced;
        })
        old

  status-IsValid :
      (s : Server c S) (i : Pass)
      → IsOpen c k o s
      → in_use c s.receiver ≡ false
      → Leaves (status c k g s i)
  unfolding status answer response response_text
  status-IsValid s i w off =
      let s' = renew c k g s i in
      let w' = renew-IsOpen s i w off in
      option_both Leaves (sign c s'.receiver (response c k g s')) _ _
        (close_peer-IsValid c k o s' w'.traced)
        λ tag. refuse-IsValid s' i.reply_at (response c k g s') _ w' (omega arith)

  -- While the header is read: at most `n` bytes of it are there.
  pub record IsReading (n : ℕ) (s : Server c S) : Type 0 where
    pub header_at : length s.header ≤ n
    pub peer_is : s.peer ≡ true
    pub idle : s.receiving ≡ false
    pub no_reply : length s.reply_buffer ≡ 0
    pub no_session : in_use c s.receiver ≡ false
    pub header_bytes : IsByteList s.header
    pub traced : Traced c k o s.receiver s.sink

  reading-IsOpen : (s : Server c S) → IsReading ota_header_size s → IsOpen c k o s
  reading-IsOpen s r = record {
    header_fits = r.header_at;
    peer_is = r.peer_is;
    no_session = λ e. r.no_session;
    header_bytes = r.header_bytes;
    traced = r.traced;
  }

  reading-IsValid : (s : Server c S) → IsReading 140 s → IsValid c k o s
  reading-IsValid s r = record {
    header_fits = omega (arith, r.header_at);
    header_room = λ e f. omega (arith, r.header_at);
    reply_fits = omega (arith, r.no_reply);
    reply_left = λ e. absurd (e r.no_reply);
    installs = λ e. absurd (e r.no_reply);
    resumes = λ e. absurd (e r.no_reply);
    clean_header = λ e. cc (e, r.peer_is);
    clean_reply = λ e. cc (e, r.peer_is);
    clean_body = λ e. cc (e, r.peer_is);
    no_session = λ e. r.no_session;
    header_bytes = r.header_bytes;
    traced = r.traced;
  }

  taken-IsReading :
      (s : Server c S) (b : ℕ) (querying : Bool)
      → b < 256
      → IsReading 140 s
      → IsReading ota_header_size (record s { header = s.header ++ (b ∷ []); querying = querying })
  taken-IsReading s b querying byte r = record {
    header_at = omega (arith, r.header_at, length-append s.header (b ∷ []));
    peer_is = r.peer_is;
    idle = r.idle;
    no_reply = r.no_reply;
    no_session = r.no_session;
    header_bytes = append-IsByteList s.header (b ∷ []) r.header_bytes (byte, tt);
    traced = r.traced;
  }

  take_byte-IsReading :
      (s : Server c S) (b : ℕ)
      → b < 256
      → IsReading 140 s
      → IsReading ota_header_size (take_byte c k g s b)
  unfolding take_byte
  take_byte-IsReading s b byte r =
      if_both (IsReading ota_header_size) (length (s.header ++ (b ∷ [])) == 8) _ _
        (taken-IsReading s b (bytes_eq (s.header ++ (b ∷ [])) status_magic) byte r)
        (taken-IsReading s b s.querying byte r)

  room-IsReading :
      (s : Server c S)
      → IsReading ota_header_size s
      → (length s.header == ota_header_size) ≡ false
      → IsReading 140 s
  room-IsReading s t e = record {
    header_at = ground (arith, e, t.header_at);
    peer_is = t.peer_is;
    idle = t.idle;
    no_reply = t.no_reply;
    no_session = t.no_session;
    header_bytes = t.header_bytes;
    traced = t.traced;
  }

  pub read_header-IsValid :
      (bytes : Bytes) (s : Server c S) (i : Pass)
      → IsByteList bytes
      → IsReading 140 s
      → Leaves (read_header c k g bytes s i)
  unfolding read_header
  read_header-IsValid [] s i bs r = reading-IsValid s r
  read_header-IsValid (b ∷ more) s i bs r =
      let s' = take_byte c k g s b in
      let t = take_byte-IsReading s b bs.0 r in
      if_both Leaves
        (length s'.header == 8 && not s'.querying && not (bytes_eq s'.header upload_magic)) _ _
        (close_peer-IsValid c k o s' t.traced)
        (if_both Leaves (s'.querying && length s'.header == 40) _ _
          (status-IsValid s' i (reading-IsOpen s' t) t.no_session)
          (if_cases Leaves (length s'.header == ota_header_size) _ _
            (λ e. authorize-IsValid s' i more (reading-IsOpen s' t) t.no_session)
            (λ e. read_header-IsValid more s' i bs.1 (room-IsReading s' t e))))
