-- ===== src/Ota/Server/Preserve.antt =====
-- `ota_loop` of ota_update.cpp, one pass from a state between passes.
use house_panel.Base.{
  ℕ, ◌≡◌, refl, Bool, true, false, not, ◌&&◌, ◌||◌, List, [], arith, ltb, ◌==◌, if◌then◌else◌,
  Bytes, length, if_both, if_cases, IsByteList,
}
use house_panel.Base.Words.{elapsed}
use house_panel.Ota.Crypto.{Crypto, Sink}
use house_panel.Ota.Receiver.{Receiver, feed}
use house_panel.Ota.Receiver.Trace.{feed-Traced}
use house_panel.Ota.Server.Heading.{Leaves, refuse-IsValid, read_header-IsValid}
use house_panel.Ota.Server.Cases.{accepted_both, received_both}
use house_panel.Ota.Server.{Config, Server, Pass, Effect, AfterReply, Received}
use house_panel.Ota.Server.Reply.{close_peer}
use house_panel.Ota.Server.Loop.{
  refused_text, ok_text, feed_body, receive, converse, accept_failed, serve, listen, disconnect,
  ota_loop,
}
use house_panel.Ota.Server.Valid.{
  IsValid, IsOpen, close_peer-IsValid, reply-IsValid, flush_reply-IsValid,
}

-- The network delivers bytes.
abbrev pub HasBytes : Pass → Type 0
HasBytes i = (bytes : Bytes) → i.recv ≡ Received.received bytes → IsByteList bytes

module _ (c : Crypto) {S : Type 0} (k : Sink S) (o : Receiver c) (g : Config) where
  body-IsOpen :
      (s : Server c S) (bytes : Bytes) (at : ℕ)
      → IsOpen c k o s
      → s.receiving ≡ true
      → IsOpen c k o (record s {
        receiver = (feed c k s.receiver s.sink bytes).1;
        sink = (feed c k s.receiver s.sink bytes).2;
        progress_at = at;
      })
  body-IsOpen s bytes at w on = record {
    header_fits = w.header_fits;
    peer_is = w.peer_is;
    no_session = λ e. cc (on, e);
    header_bytes = w.header_bytes;
    traced = feed-Traced c k o s.receiver s.sink bytes w.traced;
  }

  more-IsValid :
      (s : Server c S)
      → IsOpen c k o s
      → s.receiving ≡ true
      → length s.reply_buffer ≡ 0
      → IsValid c k o s
  more-IsValid s w on empty = record {
    header_fits = w.header_fits;
    header_room = λ e. cc (e, on);
    reply_fits = omega (arith, empty);
    reply_left = λ e. absurd (e empty);
    installs = λ e. absurd (e empty);
    resumes = λ e. absurd (e empty);
    clean_header = λ e. cc (e, w.peer_is);
    clean_reply = λ e. cc (e, w.peer_is);
    clean_body = λ e. cc (e, w.peer_is);
    no_session = w.no_session;
    header_bytes = w.header_bytes;
    traced = w.traced;
  }

  feed_body-IsValid :
      (s : Server c S) (i : Pass) (bytes : Bytes)
      → IsOpen c k o s
      → s.receiving ≡ true
      → length s.reply_buffer ≡ 0
      → Leaves c k o g (feed_body c k g s i bytes)
  unfolding feed_body
  feed_body-IsValid s i bytes w on empty =
      let f = feed c k s.receiver s.sink bytes in
      if_both (Leaves c k o g) (not f.0) _ _
        (refuse-IsValid c k o g _ i.reply_at refused_text []
          (body-IsOpen s bytes s.progress_at w on) (omega arith))
        (if_cases (Leaves c k o g) f.1.complete _ _
          (λ h.
            reply-IsValid c k o _ i.reply_at ok_text AfterReply.install_after []
              (body-IsOpen s bytes i.now w on) (omega arith) (λ e. h) (λ e. on))
          (λ h. more-IsValid _ (body-IsOpen s bytes i.now w on) on empty))

  receive-IsValid :
      (s : Server c S) (i : Pass)
      → HasBytes i
      → IsOpen c k o s
      → length s.reply_buffer ≡ 0
      → IsValid c k o s
      → Leaves c k o g (receive c k g s i)
  unfolding receive
  receive-IsValid s i bs w empty v =
      let s' : Server c S = record s { progress_at = i.now } in
      received_both (Leaves c k o g) i.recv _ _ _ v (close_peer-IsValid c k o s w.traced)
        λ bytes got.
          if_both (Leaves c k o g) (length bytes == 0) _ _ (close_peer-IsValid c k o s w.traced) (
            if_cases (Leaves c k o g) s.receiving _ _
              (λ on.
                feed_body-IsValid s' i bytes
                  (record {
                    header_fits = w.header_fits;
                    peer_is = w.peer_is;
                    no_session = w.no_session;
                    header_bytes = w.header_bytes;
                    traced = w.traced;
                  })
                  on empty)
              (λ off. read_header-IsValid c k o g bytes s' i (bs bytes got) (record {
                header_at = omega (arith, v.header_room off empty);
                peer_is = w.peer_is;
                idle = off;
                no_reply = empty;
                no_session = w.no_session off;
                header_bytes = w.header_bytes;
                traced = w.traced;
              })))

  valid-IsOpen : (s : Server c S) → IsValid c k o s → s.peer ≡ true → IsOpen c k o s
  valid-IsOpen s v on = record {
    header_fits = v.header_fits;
    peer_is = on;
    no_session = v.no_session;
    header_bytes = v.header_bytes;
    traced = v.traced;
  }

  converse-IsValid :
      (s : Server c S) (i : Pass)
      → HasBytes i
      → s.peer ≡ true
      → IsValid c k o s
      → Leaves c k o g (converse c k g s i)
  unfolding converse
  converse-IsValid s i bs on v =
      let w = valid-IsOpen s v on in
      if_both (Leaves c k o g)
        (ltb 180_000 (elapsed i.now s.connected_at) || ltb 5000 (elapsed i.now s.progress_at)) _ _
        (close_peer-IsValid c k o s v.traced)
        (if_cases (Leaves c k o g) (not (length s.reply_buffer == 0)) _ _
          (λ e. flush_reply-IsValid c k o s i w (ground (arith, e)) v)
          (λ e. receive-IsValid s i bs w (ground (arith, e)) v))

  -- The fields that the invariant is not about.
  same-IsValid :
      (s : Server c S) (listening : Bool) (at : ℕ)
      → IsValid c k o s
      → IsValid c k o (record s { listening = listening; listen_attempt_at = at })
  same-IsValid s listening at v = record {
    header_fits = v.header_fits;
    header_room = v.header_room;
    reply_fits = v.reply_fits;
    reply_left = v.reply_left;
    installs = v.installs;
    resumes = v.resumes;
    clean_header = v.clean_header;
    clean_reply = v.clean_reply;
    clean_body = v.clean_body;
    no_session = v.no_session;
    header_bytes = v.header_bytes;
    traced = v.traced;
  }

  accept_failed-IsValid :
      (s : Server c S) → IsValid c k o s → Leaves c k o g (accept_failed c k g s)
  unfolding accept_failed
  accept_failed-IsValid s v =
      let q = close_peer c k s in
      same-IsValid q.0 false q.0.listen_attempt_at (close_peer-IsValid c k o s v.traced)

  connected-IsValid :
      (s : Server c S) (at : ℕ)
      → IsValid c k o s
      → IsValid c k o (record s { peer = true; connected_at = at; progress_at = at })
  connected-IsValid s at v = record {
    header_fits = v.header_fits;
    header_room = v.header_room;
    reply_fits = v.reply_fits;
    reply_left = v.reply_left;
    installs = v.installs;
    resumes = v.resumes;
    clean_header = λ e. cc (e);
    clean_reply = λ e. cc (e);
    clean_body = λ e. cc (e);
    no_session = v.no_session;
    header_bytes = v.header_bytes;
    traced = v.traced;
  }

  serve-IsValid :
      (s : Server c S) (i : Pass) → HasBytes i → IsValid c k o s → Leaves c k o g (serve c k g s i)
  unfolding serve
  serve-IsValid s i bs v =
      if_cases (Leaves c k o g) s.peer _ _ (λ e. converse-IsValid s i bs e v)
        (λ e.
          accepted_both (Leaves c k o g) i.accept _ _ _ _
            (converse-IsValid _ i bs refl (connected-IsValid s i.accepted_at v))
            (close_peer-IsValid c k o s v.traced) (accept_failed-IsValid s v)
            (accept_failed-IsValid s v))

  listen-IsValid :
      (s : Server c S) (i : Pass) → HasBytes i → IsValid c k o s → Leaves c k o g (listen c k g s i)
  unfolding listen
  listen-IsValid s i bs v =
      if_both (Leaves c k o g)
        (not (s.listen_attempt_at == 0) && ltb (elapsed i.listen_now s.listen_attempt_at) 5000) _ _
        v
        (if_both (Leaves c k o g) (not i.opened || not i.bound || not i.listens) _ _
          (same-IsValid s s.listening i.listen_at v)
          (serve-IsValid _ i bs (same-IsValid s true i.listen_at v)))

  disconnect-IsValid : (s : Server c S) → IsValid c k o s → Leaves c k o g (disconnect c k g s)
  unfolding disconnect
  disconnect-IsValid s v =
      let q : Server c S × List Effect = if s.peer then close_peer c k s else (s, []) in
      same-IsValid q.0 false q.0.listen_attempt_at
        (if_both (Leaves c k o g) s.peer _ _ (close_peer-IsValid c k o s v.traced) v)

  pub ota_loop-IsValid :
      (s : Server c S) (i : Pass)
      → HasBytes i
      → IsValid c k o s
      → IsValid c k o (ota_loop c k g s i).0
  unfolding ota_loop
  ota_loop-IsValid s i bs v = if_both (Leaves c k o g) (not s.ready) _ _ v (
      if_both (Leaves c k o g) (not i.wifi_connected) _ _ (disconnect-IsValid s v) (
        if_both (Leaves c k o g) (not s.listening) _ _ (listen-IsValid s i bs v)
          (serve-IsValid s i bs v)))
