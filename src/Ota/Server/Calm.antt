-- ===== src/Ota/Server/Calm.antt =====
-- The steps of `ota_loop` (ota_update.cpp) that do not call the updater.
use house_panel.Base.{
  ℕ, ◌+◌, ◌≡◌, refl, ◌∙◌, Bool, true, false, not, ◌&&◌, ◌||◌, List, [], ◌∷◌, ◌++◌, arith, ltb, ◌==◌,
  if◌then◌else◌, Bytes, bytes_eq, length, if_both, option_both,
}
use house_panel.Base.Words.{elapsed}
use house_panel.Ota.Crypto.{Crypto, Sink}
use house_panel.Ota.Receiver.{ota_header_size, upload_magic, begin, feed}
use house_panel.Ota.Server.{Server, Config, Pass, Effect, AfterReply}
use house_panel.Ota.Server.Reply.{close_peer, reply, reply_capacity}
use house_panel.Ota.Server.Status.{renew, answer, status}
use house_panel.Ota.Server.Loop.{authorize, take_byte, read_header, feed_body, receive, disconnect}
use house_panel.Ota.Server.Cases.{received_both}

abbrev is_update : Effect → Bool
is_update Effect.update = true
is_update _ = false

-- The updater is called.
abbrev pub has_update : List Effect → Bool
has_update [] = false
has_update (e ∷ es) = is_update e || has_update es

has_update-append :
    (es more : List Effect) → has_update (es ++ more) ≡ (has_update es || has_update more)
has_update-append [] more = refl
has_update-append (e ∷ es) more = ground (arith, has_update-append es more)

module _ (c : Crypto) {S : Type 0} (k : Sink S) where
  -- A step that does not call the updater.
  pub record Calm (q : Server c S × List Effect) : Type 0 where
    pub calm : has_update q.1 ≡ false

  pub close_peer-Calm : (s : Server c S) → Calm (close_peer c k s)
  unfolding close_peer
  close_peer-Calm s = record { calm = if_both (λ es. has_update es ≡ false) s.peer _ _ refl refl }

  reply-Calm :
      (s : Server c S) (at : ℕ) (text : Bytes) (action : AfterReply) (suffix : Bytes)
      → Calm (reply c k s at text action suffix)
  unfolding reply
  reply-Calm s at text action suffix =
      if_both Calm
        (not (length s.reply_buffer == 0) || ltb reply_capacity (length text + length suffix)) _ _
        (close_peer-Calm s) (record { calm = refl })

  pub closing-Calm :
      (s t : Server c S) (es more : List Effect)
      → Calm (s, es)
      → has_update more ≡ false
      → Calm (t, es ++ more)
  closing-Calm s t es more h e = record { calm = has_update-append es more ∙ cc (h.calm, e) }

module _ (c : Crypto) {S : Type 0} (k : Sink S) (g : Config) where
  answer-Calm : (s : Server c S) (i : Pass) → Calm c k (answer c k g s i)
  unfolding answer
  answer-Calm s i =
      option_both (Calm c k) _ _ _ (close_peer-Calm c k s) λ tag. reply-Calm c k s _ _ _ _

  authorize-Calm : (s : Server c S) (i : Pass) (more : Bytes) → Calm c k (authorize c k g s i more)
  unfolding authorize
  authorize-Calm s i more =
      if_both (Calm c k) (not s.nonce_valid || ltb 60_000 (elapsed i.now s.challenge_at)) _ _
        (reply-Calm c k _ _ _ _ _)
        (if_both (Calm c k) (not (begin c k s.receiver s.sink s.header).0) _ _
          (reply-Calm c k _ _ _ _ _)
          (if_both (Calm c k) (not (length more == 0)) _ _ (close_peer-Calm c k _)
            (reply-Calm c k _ _ _ _ _)))

  read_header-Calm :
      (bytes : Bytes) (s : Server c S) (i : Pass) → Calm c k (read_header c k g bytes s i)
  unfolding read_header status
  read_header-Calm [] s i = record { calm = refl }
  read_header-Calm (b ∷ more) s i =
      let s' = take_byte c k g s b in
      if_both (Calm c k)
        (length s'.header == 8 && not s'.querying && not (bytes_eq s'.header upload_magic)) _ _
        (close_peer-Calm c k s')
        (if_both (Calm c k) (s'.querying && length s'.header == 40) _ _
          (answer-Calm (renew c k g s' i) i)
          (if_both (Calm c k) (length s'.header == ota_header_size) _ _ (authorize-Calm s' i more)
            (read_header-Calm more s' i)))

  feed_body-Calm :
      (s : Server c S) (i : Pass) (bytes : Bytes) → Calm c k (feed_body c k g s i bytes)
  unfolding feed_body
  feed_body-Calm s i bytes =
      let f = feed c k s.receiver s.sink bytes in
      if_both (Calm c k) (not f.0) _ _ (reply-Calm c k _ _ _ _ _)
        (if_both (Calm c k) f.1.complete _ _ (reply-Calm c k _ _ _ _ _) (record { calm = refl }))

  pub receive-Calm : (s : Server c S) (i : Pass) → Calm c k (receive c k g s i)
  unfolding receive
  receive-Calm s i =
      let s' : Server c S = record s { progress_at = i.now } in
      received_both (Calm c k) i.recv _ _ _ (record { calm = refl }) (close_peer-Calm c k s)
        λ bytes got. if_both (Calm c k) (length bytes == 0) _ _ (close_peer-Calm c k s) (
          if_both (Calm c k) s.receiving _ _ (feed_body-Calm s' i bytes)
            (read_header-Calm bytes s' i))

  pub disconnect-Calm : (s : Server c S) → Calm c k (disconnect c k g s)
  unfolding disconnect
  disconnect-Calm s =
      let q : Server c S × List Effect = if s.peer then close_peer c k s else (s, []) in
      closing-Calm c k q.0 _ q.1 _
        (if_both (Calm c k) s.peer _ _ (close_peer-Calm c k s) (record { calm = refl }))
        (if_both (λ es. has_update es ≡ false) q.0.listening _ _ refl refl)
