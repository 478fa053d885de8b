-- ===== src/Ota/Server/Reply.antt =====
-- `close_peer`, `reply` and `flush_reply` of ota_update.cpp.
use house_panel.Base.{
  ℕ, ◌+◌, ◌-◌, Bool, false, not, ◌||◌, List, [], ◌∷◌, ◌++◌, ltb, ◌==◌, if◌then◌else◌, Bytes, length,
  take, drop,
}
use house_panel.Base.Words.{elapsed}
use house_panel.Ota.Crypto.{Crypto, Sink}
use house_panel.Ota.Receiver.{abort}
use house_panel.Ota.Server.{Server, Pass, Effect, Sent, AfterReply}

abbrev pub reply_capacity : ℕ
reply_capacity = 640

module _ (c : Crypto) {S : Type 0} (k : Sink S) where
  unfoldable pub close_peer : Server c S → Server c S × List Effect
  unfolding abort
  close_peer s =
      let (r, t) = abort c k s.receiver s.sink in
      (
        record s {
          receiver = r;
          sink = t;
          peer = false;
          receiving = false;
          querying = false;
          header = [];
          reply_buffer = [];
          reply_offset = 0;
        },
        if s.peer then Effect.peer_close ∷ [] else [],
      )

  unfoldable pub reply : Server c S → ℕ → Bytes → AfterReply → Bytes → Server c S × List Effect
  unfolding close_peer
  reply s at text action suffix =
      if not (length s.reply_buffer == 0) || ltb reply_capacity (length text + length suffix)
      then close_peer s
      else (
        record s {
          reply_buffer = text ++ suffix;
          reply_offset = 0;
          reply_started = at;
          after_reply = action;
        },
        [],
      )

  -- `action == AfterReply::Install && updater.update() == None` and the reset.
  install : AfterReply → Bool → List Effect
  install AfterReply.close_after updated = []
  install AfterReply.receive_after updated = []
  install AfterReply.install_after updated =
      if updated then Effect.update ∷ Effect.reset ∷ [] else Effect.update ∷ []

  -- From `AfterReply action = after_reply` on: the whole reply is sent.
  unfoldable pub end_reply : Server c S → Pass → Server c S × List Effect
  unfolding close_peer install
  end_reply s i =
      let s' : Server c S = record s {
        reply_buffer = [];
        reply_offset = 0;
        progress_at = i.flushed_at;
      } in
      elim s.after_reply [
        | AfterReply.receive_after ↦ (s', [])
        | AfterReply.close_after ↦ close_peer s'
        | AfterReply.install_after ↦
            let (s'', es) = close_peer s' in (s'', es ++ install AfterReply.install_after i.updated)
      ]

  -- `send` took `n` bytes.
  unfoldable pub advance_reply : Server c S → Pass → ℕ → Server c S × List Effect
  unfolding end_reply close_peer
  advance_reply s i n =
      if n == 0 || ltb (length s.reply_buffer - s.reply_offset) n
      then close_peer s
      else (let s' : Server c S = record s { reply_offset = s.reply_offset + n } in
          let out = Effect.peer_send (take n (drop s.reply_offset s.reply_buffer)) in
          if not (s'.reply_offset == length s'.reply_buffer)
          then (s', out ∷ [])
          else (let (s'', es) = end_reply s' i in (s'', out ∷ es)))

  unfoldable pub flush_reply : Server c S → Pass → Server c S × List Effect
  unfolding close_peer advance_reply
  flush_reply s i =
      if not (ltb (elapsed i.flush_now s.reply_started) 2000) then close_peer s else elim i.send [
        | Sent.would_block_send ↦ (s, [])
        | Sent.failed_send ↦ close_peer s
        | Sent.sent n ↦ advance_reply s i n
      ]
