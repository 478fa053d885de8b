-- ===== src/Ota/Server/Valid.antt =====
-- The state of ota_update.cpp between two passes of `ota_loop`.
use house_panel.Base.{
  ℕ, ◌+◌, ◌-◌, ◌≤◌, ◌<◌, ◌≡◌, ◌≢◌, refl, inl, inr, true, false, not, ◌||◌, List, [], arith, ltb,
  ◌==◌, Bytes, length, length-append, if_both, Bool-cases, IsByteList,
}
use house_panel.Base.Words.{elapsed}
use house_panel.Ota.Crypto.{Crypto, Sink}
use house_panel.Ota.Receiver.{Receiver, ota_header_size, upload_magic, begin, feed}
use house_panel.Ota.Receiver.Origin.{in_use}
use house_panel.Ota.Receiver.Trace.{Traced, abort-Traced}
use house_panel.Ota.Server.{Server, Pass, Effect, AfterReply}
use house_panel.Ota.Server.Reply.{
  close_peer, reply, end_reply, advance_reply, flush_reply, reply_capacity,
}
use house_panel.Ota.Server.Cases.{sent_both, after_both}

module _ (c : Crypto) {S : Type 0} (k : Sink S) (o : Receiver c) where
  -- The header and the reply stay in their arrays, a reply that is pending has bytes left, and while none
  -- is pending the header has room for a byte. A reply that installs stands for a complete
  -- update, and one that goes on with the body for an authorized session. Without
  -- a client nothing is left of the one before, and without authorization no session is open or ended.
  -- What the receiver holds has its session.
  pub record IsValid (s : Server c S) : Type 0 where
    pub header_fits : length s.header ≤ ota_header_size
    pub header_room :
        s.receiving ≡ false → length s.reply_buffer ≡ 0 → length s.header < ota_header_size
    pub reply_fits : length s.reply_buffer ≤ reply_capacity
    pub reply_left : length s.reply_buffer ≢ 0 → s.reply_offset < length s.reply_buffer
    pub installs :
        length s.reply_buffer ≢ 0
        → s.after_reply ≡ AfterReply.install_after
        → s.receiver.complete ≡ true
    pub resumes :
        length s.reply_buffer ≢ 0 → s.after_reply ≡ AfterReply.receive_after → s.receiving ≡ true
    pub clean_header : s.peer ≡ false → length s.header ≡ 0
    pub clean_reply : s.peer ≡ false → length s.reply_buffer ≡ 0
    pub clean_body : s.peer ≡ false → s.receiving ≡ false
    pub no_session : s.receiving ≡ false → in_use c s.receiver ≡ false
    pub header_bytes : IsByteList s.header
    pub traced : Traced c k o s.receiver s.sink

  -- A client's connection, at any place of a pass.
  pub record IsOpen (s : Server c S) : Type 0 where
    pub header_fits : length s.header ≤ ota_header_size
    pub peer_is : s.peer ≡ true
    pub no_session : s.receiving ≡ false → in_use c s.receiver ≡ false
    pub header_bytes : IsByteList s.header
    pub traced : Traced c k o s.receiver s.sink

module _ (c : Crypto) {S : Type 0} (k : Sink S) (o : Receiver c) where
  pub close_peer-IsValid :
      (s : Server c S) → Traced c k o s.receiver s.sink → IsValid c k o (close_peer c k s).0
  unfolding close_peer house_panel.Ota.Receiver.abort
  close_peer-IsValid s t = record {
    header_fits = omega arith;
    header_room = λ e f. omega arith;
    reply_fits = omega arith;
    reply_left = λ e. absurd (e refl);
    installs = λ e. absurd (e refl);
    resumes = λ e. absurd (e refl);
    clean_header = λ e. refl;
    clean_reply = λ e. refl;
    clean_body = λ e. refl;
    no_session = λ e. refl;
    header_bytes = tt;
    traced = abort-Traced c k o s.receiver s.sink t;
  }

  pub reply-IsValid :
      (s : Server c S) (at : ℕ) (text : Bytes) (action : AfterReply) (suffix : Bytes)
      → IsOpen c k o s
      → length text ≢ 0
      → (action ≡ AfterReply.install_after → s.receiver.complete ≡ true)
      → (action ≡ AfterReply.receive_after → s.receiving ≡ true)
      → IsValid c k o (reply c k s at text action suffix).0
  unfolding reply
  reply-IsValid s at text action suffix w some_text whole goes =
      elim (Bool-cases
        (not (length s.reply_buffer == 0) || ltb reply_capacity (length text + length suffix))) [
          | inl e ↦ rw e (close_peer-IsValid s w.traced)
          | inr e ↦ rw e (record {
            header_fits = w.header_fits;
            header_room =
                λ e f. absurd (some_text (omega (arith, f, length-append {0} text suffix)));
            reply_fits = ground (arith, e, length-append {0} text suffix);
            reply_left = λ e. omega (arith, some_text, length-append {0} text suffix);
            installs = λ e. whole;
            resumes = λ e. goes;
            clean_header = λ e. cc (e, w.peer_is);
            clean_reply = λ e. cc (e, w.peer_is);
            clean_body = λ e. cc (e, w.peer_is);
            no_session = w.no_session;
            header_bytes = w.header_bytes;
            traced = w.traced;
          })
        ]

  end_reply-IsValid :
      (s : Server c S) (i : Pass)
      → IsOpen c k o s
      → (s.after_reply ≡ AfterReply.receive_after → s.receiving ≡ true)
      → IsValid c k o (end_reply c k s i).0
  unfolding end_reply close_peer
  end_reply-IsValid s i w goes =
      let s' : Server c S = record s {
        reply_buffer = [];
        reply_offset = 0;
        progress_at = i.flushed_at;
      } in
      let q = close_peer-IsValid s' w.traced in
      after_both (λ (u : Server c S × List Effect). IsValid c k o u.0) s.after_reply _ _ _
        (λ e.
          let on = goes e in
          record {
            header_fits = w.header_fits;
            header_room = λ f. cc (on, f);
            reply_fits = omega arith;
            reply_left = λ f. absurd (f refl);
            installs = λ f. absurd (f refl);
            resumes = λ f. absurd (f refl);
            clean_header = λ f. cc (f, w.peer_is);
            clean_reply = λ f. refl;
            clean_body = λ f. cc (f, w.peer_is);
            no_session = w.no_session;
            header_bytes = w.header_bytes;
            traced = w.traced;
          })
        q (λ e. q)

  -- A part of the reply is sent, and some of it is left.
  part-IsValid :
      (s : Server c S) (n : ℕ)
      → IsValid c k o s
      → length s.reply_buffer ≢ 0
      → (n == 0 || ltb (length s.reply_buffer - s.reply_offset) n) ≡ false
      → not (s.reply_offset + n == length s.reply_buffer) ≡ true
      → IsValid c k o (record s { reply_offset = s.reply_offset + n })
  part-IsValid s n v pending taken left = record {
    header_fits = v.header_fits;
    header_room = v.header_room;
    reply_fits = v.reply_fits;
    reply_left = λ e. let l = v.reply_left pending in ground (arith, taken, left, l);
    installs = v.installs;
    resumes = v.resumes;
    clean_header = v.clean_header;
    clean_reply = v.clean_reply;
    clean_body = v.clean_body;
    no_session = v.no_session;
    header_bytes = v.header_bytes;
    traced = v.traced;
  }

  advance_reply-IsValid :
      (s : Server c S) (i : Pass) (n : ℕ)
      → IsOpen c k o s
      → length s.reply_buffer ≢ 0
      → IsValid c k o s
      → IsValid c k o (advance_reply c k s i n).0
  unfolding advance_reply
  advance_reply-IsValid s i n w pending v =
      let s' : Server c S = record s { reply_offset = s.reply_offset + n } in
      elim (Bool-cases (n == 0 || ltb (length s.reply_buffer - s.reply_offset) n)) [
        | inl e ↦ rw e (close_peer-IsValid s v.traced)
        | inr e ↦ elim (Bool-cases (not (s.reply_offset + n == length s.reply_buffer))) [
          | inl f ↦ rw (e, f) (part-IsValid s n v pending e f)
          | inr f ↦
              rw (e, f)
                (end_reply-IsValid s' i
                  (record {
                    header_fits = w.header_fits;
                    peer_is = w.peer_is;
                    no_session = w.no_session;
                    header_bytes = w.header_bytes;
                    traced = w.traced;
                  })
                  (v.resumes pending))
        ]
      ]

  pub flush_reply-IsValid :
      (s : Server c S) (i : Pass)
      → IsOpen c k o s
      → length s.reply_buffer ≢ 0
      → IsValid c k o s
      → IsValid c k o (flush_reply c k s i).0
  unfolding flush_reply
  flush_reply-IsValid s i w pending v =
      if_both (λ (q : Server c S × List Effect). IsValid c k o q.0)
        (not (ltb (elapsed i.flush_now s.reply_started) 2000)) _ _ (close_peer-IsValid s v.traced)
        (sent_both (λ (q : Server c S × List Effect). IsValid c k o q.0) i.send _ _ _ v
          (close_peer-IsValid s v.traced) λ n took. advance_reply-IsValid s i n w pending v)
