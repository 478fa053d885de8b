-- ===== src/Ota/Server/Install.antt =====
-- The passes of `ota_loop` (ota_update.cpp) that install an update.
use house_panel.Base.{
  ℕ, ◌+◌, ◌≡◌, ◌≢◌, refl, Bool, true, false, not, ◌&&◌, ◌||◌, List, [], ◌∷◌, arith, ltb, ◌==◌,
  length, if_both, if_cases,
}
use house_panel.Base.Words.{elapsed}
use house_panel.Ota.Crypto.{Crypto, Sink}
use house_panel.Ota.Receiver.{Receiver, ota_header_size, upload_magic, begin, feed, sign}
use house_panel.Ota.Server.{Server, Config, Pass, Effect, AfterReply, Sent}
use house_panel.Ota.Server.Reply.{close_peer, end_reply, advance_reply, flush_reply}
use house_panel.Ota.Server.Loop.{converse, accept_failed, serve, listen, ota_loop}
use house_panel.Ota.Server.Cases.{sent_both, after_both, accepted_both}
use house_panel.Ota.Server.Calm.{
  has_update, Calm, close_peer-Calm, closing-Calm, receive-Calm, disconnect-Calm,
}

module _ (c : Crypto) {S : Type 0} (k : Sink S) where
  -- The pass sends the last byte of a reply that installs, and leaves the sink as it was.
  pub record Handed (s : Server c S) (i : Pass) (t : Server c S) : Type 0 where
    pub pending : length s.reply_buffer ≢ 0
    pub installs : s.after_reply ≡ AfterReply.install_after
    pub count : ℕ
    pub sent_is : i.send ≡ Sent.sent count
    pub all_sent : s.reply_offset + count ≡ length s.reply_buffer
    pub sink_is :
        (s.receiver.complete ≡ true → s.receiver.sink ≡ false)
        → s.receiver.complete ≡ true
        → t.sink ≡ s.sink

  record HandsOver (s : Server c S) (i : Pass) (q : Server c S × List Effect) : Type 0 where
    hands : has_update q.1 ≡ true → Handed s i q.0

  -- The fields that a pass sets before it talks to the client.
  same-HandsOver :
      (s : Server c S) (peer listening : Bool) (connected progress attempt : ℕ) (i : Pass)
      (q : Server c S × List Effect)
      → HandsOver
          (record s {
            peer = peer;
            listening = listening;
            connected_at = connected;
            progress_at = progress;
            listen_attempt_at = attempt;
          })
          i
          q
      → HandsOver s i q
  same-HandsOver s peer listening connected progress attempt i q d = record {
    hands = λ e.
        let h = d.hands e in
        record {
          pending = h.pending;
          installs = h.installs;
          count = h.count;
          sent_is = h.sent_is;
          all_sent = h.all_sent;
          sink_is = h.sink_is;
        };
  }

  Calm-HandsOver :
      (s : Server c S) (i : Pass) (q : Server c S × List Effect) → Calm c k q → HandsOver s i q
  Calm-HandsOver s i q h = record { hands = λ e. cc (h.calm, e) }

  end_reply-HandsOver :
      (s : Server c S) (i : Pass) (n : ℕ)
      → length s.reply_buffer ≢ 0
      → i.send ≡ Sent.sent n
      → s.reply_offset + n ≡ length s.reply_buffer
      → HandsOver s i (end_reply c k (record s { reply_offset = s.reply_offset + n }) i)
  unfolding end_reply close_peer house_panel.Ota.Receiver.abort
  end_reply-HandsOver s i n some_left took all =
      let s' : Server c S = record s {
        reply_buffer = [];
        reply_offset = 0;
        progress_at = i.flushed_at;
      } in
      after_both (HandsOver s i) s.after_reply _ _ _ (λ e. record { hands = λ f. cc (f) })
        (Calm-HandsOver s i (close_peer c k s') (close_peer-Calm c k s'))
        (λ e. record {
          hands = λ f. record {
            pending = some_left;
            installs = e;
            count = n;
            sent_is = took;
            all_sent = all;
            sink_is = λ apart done. let off = apart done in ground (arith, off);
          };
        })

  advance_reply-HandsOver :
      (s : Server c S) (i : Pass) (n : ℕ)
      → length s.reply_buffer ≢ 0
      → i.send ≡ Sent.sent n
      → HandsOver s i (advance_reply c k s i n)
  unfolding advance_reply
  advance_reply-HandsOver s i n some_left took =
      if_both (HandsOver s i) _ _ _ (Calm-HandsOver s i _ (close_peer-Calm c k s)) (
        if_cases (HandsOver s i) (not (s.reply_offset + n == length s.reply_buffer)) _ _
          (λ e. record { hands = λ f. cc (f) })
          (λ e.
            let d = end_reply-HandsOver s i n some_left took (ground (arith, e)) in
            record { hands = d.hands }))

  flush_reply-HandsOver :
      (s : Server c S) (i : Pass) → length s.reply_buffer ≢ 0 → HandsOver s i (flush_reply c k s i)
  unfolding flush_reply
  flush_reply-HandsOver s i some_left =
      let s' : ℕ → Server c S = λ n. record s { reply_offset = s.reply_offset + n } in
      if_both (HandsOver s i) _ _ _ (Calm-HandsOver s i _ (close_peer-Calm c k s)) (
        sent_both (HandsOver s i) i.send _ _ _ (record { hands = λ e. cc (e) })
          (Calm-HandsOver s i _ (close_peer-Calm c k s))
          λ n took. advance_reply-HandsOver s i n some_left took)

module _ (c : Crypto) {S : Type 0} (k : Sink S) (g : Config) where
  converse-HandsOver : (s : Server c S) (i : Pass) → HandsOver c k s i (converse c k g s i)
  unfolding converse
  converse-HandsOver s i =
      if_both (HandsOver c k s i)
        (ltb 180_000 (elapsed i.now s.connected_at) || ltb 5000 (elapsed i.now s.progress_at)) _ _
        (Calm-HandsOver c k s i _ (close_peer-Calm c k s))
        (if_cases (HandsOver c k s i) (not (length s.reply_buffer == 0)) _ _
          (λ e. flush_reply-HandsOver c k s i (ground (arith, e)))
          (λ e. Calm-HandsOver c k s i _ (receive-Calm c k g s i)))

  serve-HandsOver : (s : Server c S) (i : Pass) → HandsOver c k s i (serve c k g s i)
  unfolding serve accept_failed
  serve-HandsOver s i =
      let s' : Server c S = record s {
        peer = true;
        connected_at = i.accepted_at;
        progress_at = i.accepted_at;
      } in
      let closed = Calm-HandsOver c k s i (accept_failed c k g s) (
        closing-Calm c k (close_peer c k s).0 _ (close_peer c k s).1 (Effect.server_close ∷ [])
          (close_peer-Calm c k s) refl) in
      if_both (HandsOver c k s i) s.peer _ _ (converse-HandsOver s i) (
        accepted_both (HandsOver c k s i) i.accept _ _ _ _
          (same-HandsOver c k s true s.listening i.accepted_at i.accepted_at s.listen_attempt_at i _
            (converse-HandsOver s' i))
          (Calm-HandsOver c k s i _ (close_peer-Calm c k s)) closed closed)

  listen-HandsOver : (s : Server c S) (i : Pass) → HandsOver c k s i (listen c k g s i)
  unfolding listen
  listen-HandsOver s i =
      let s' : Server c S = record s { listening = true; listen_attempt_at = i.listen_at } in
      let d =
        same-HandsOver c k s s.peer true s.connected_at s.progress_at i.listen_at i _
          (serve-HandsOver s' i) in
      if_both (HandsOver c k s i)
        (not (s.listen_attempt_at == 0) && ltb (elapsed i.listen_now s.listen_attempt_at) 5000) _ _
        (record { hands = λ e. cc (e) })
        (if_both (HandsOver c k s i) (not i.opened || not i.bound || not i.listens) _ _
          (record { hands = λ e. cc (e) }) (record { hands = d.hands }))

  pub ota_loop-Handed :
      (s : Server c S) (i : Pass)
      → has_update (ota_loop c k g s i).1 ≡ true
      → Handed c k s i (ota_loop c k g s i).0
  unfolding ota_loop
  ota_loop-Handed s i e =
      let d : HandsOver c k s i (ota_loop c k g s i) =
        if_both (HandsOver c k s i) (not s.ready) _ _ (record { hands = λ f. cc (f) })
          (if_both (HandsOver c k s i) (not i.wifi_connected) _ _
            (Calm-HandsOver c k s i _ (disconnect-Calm c k g s))
            (if_both (HandsOver c k s i) (not s.listening) _ _ (listen-HandsOver s i)
              (serve-HandsOver s i))) in
      d.hands e
