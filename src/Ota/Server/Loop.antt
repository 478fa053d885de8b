-- ===== src/Ota/Server/Loop.antt =====
-- `ota_loop` of ota_update.cpp.
use house_panel.Base.{
  ℕ, true, false, not, ◌&&◌, ◌||◌, List, [], ◌∷◌, ◌++◌, ltb, ◌==◌, if◌then◌else◌, Bytes, bytes_eq,
  length, codes,
}
use house_panel.Base.Words.{elapsed}
use house_panel.Ota.Crypto.{Crypto, Sink}
use house_panel.Ota.Receiver.{ota_header_size, upload_magic, begin, feed}
use house_panel.Ota.Server.{Config, Server, Pass, Effect, AfterReply, Accepted, Received}
use house_panel.Ota.Server.Reply.{close_peer, reply, flush_reply}
use house_panel.Ota.Server.Status.{status}

abbrev pub status_magic : Bytes
status_magic = codes "HPOTA1S\n"

abbrev pub refused_text : Bytes
refused_text = codes "{\"ok\":false}\n"

abbrev pub accepted_text : Bytes
accepted_text = codes "{\"accepted\":true}\n"

abbrev pub ok_text : Bytes
ok_text = codes "{\"ok\":true}\n"

module _ (c : Crypto) {S : Type 0} (k : Sink S) (g : Config) where
  -- The header is complete; `more` is what came after it.
  unfoldable pub authorize : Server c S → Pass → Bytes → Server c S × List Effect
  authorize s i more =
      if not s.nonce_valid || ltb 60_000 (elapsed i.now s.challenge_at)
      then reply c k s i.reply_at refused_text AfterReply.close_after []
      else (let (ok, r, t) = begin c k s.receiver s.sink s.header in
          let s' : Server c S = record s { receiver = r; sink = t } in
          if not ok
          then reply c k s' i.reply_at refused_text AfterReply.close_after []
          else (let s'' : Server c S = record s' { nonce_valid = false; receiving = true } in
              if not (length more == 0)
              then close_peer c k s''
              else reply c k s'' i.reply_at accepted_text AfterReply.receive_after []))

  -- `header[header_size++] = buffer[used++]` and the eighth byte's test.
  unfoldable pub take_byte : Server c S → ℕ → Server c S
  take_byte s b =
      let header' = s.header ++ (b ∷ []) in
      if length header' == 8
      then record s { header = header'; querying = bytes_eq header' status_magic }
      else record s { header = header' }

  -- The loop over the bytes of a chunk, with the tests after each.
  unfoldable pub read_header : Bytes → Server c S → Pass → Server c S × List Effect
  unfolding take_byte
  read_header [] s i = (s, [])
  read_header (b ∷ more) s i =
      let s' = take_byte s b in
      let next = read_header more s' i in
      if length s'.header == 8 && not s'.querying && not (bytes_eq s'.header upload_magic)
      then close_peer c k s'
      else if s'.querying && length s'.header == 40
      then status c k g s' i
      else if length s'.header == ota_header_size
      then authorize s' i more
      else next

  unfoldable pub feed_body : Server c S → Pass → Bytes → Server c S × List Effect
  feed_body s i bytes =
      let (ok, r, t) = feed c k s.receiver s.sink bytes in
      let s' : Server c S = record s { receiver = r; sink = t } in
      if not ok
      then reply c k s' i.reply_at refused_text AfterReply.close_after []
      else if r.complete
      then reply c k (record s' { progress_at = i.now }) i.reply_at ok_text AfterReply.install_after
          []
      else (record s' { progress_at = i.now }, [])

  -- One chunk of the client.
  unfoldable pub receive : Server c S → Pass → Server c S × List Effect
  unfolding read_header feed_body
  receive s i = elim i.recv [
    | Received.would_block_recv ↦ (s, [])
    | Received.failed_recv ↦ close_peer c k s
    | Received.received bytes ↦
        let s' : Server c S = record s { progress_at = i.now } in
        if length bytes == 0
        then close_peer c k s
        else if s.receiving
        then feed_body s' i bytes
        else read_header bytes s' i
  ]

  unfoldable pub converse : Server c S → Pass → Server c S × List Effect
  converse s i =
      if ltb 180_000 (elapsed i.now s.connected_at) || ltb 5000 (elapsed i.now s.progress_at)
      then close_peer c k s
      else if not (length s.reply_buffer == 0)
      then flush_reply c k s i
      else receive s i

  -- `server.close(); listening = false;` after `close_peer()`.
  unfoldable pub accept_failed : Server c S → Server c S × List Effect
  accept_failed s =
      let (s', es) = close_peer c k s in
      (record s' { listening = false }, es ++ (Effect.server_close ∷ []))

  unfoldable pub serve : Server c S → Pass → Server c S × List Effect
  unfolding converse accept_failed
  serve s i = if s.peer then converse s i else elim i.accept [
    | Accepted.accepted ↦
        converse
          (record s { peer = true; connected_at = i.accepted_at; progress_at = i.accepted_at }) i
    | Accepted.would_block_accept ↦ close_peer c k s
    | Accepted.failed_accept ↦ accept_failed s
    | Accepted.null_accept ↦ accept_failed s
  ]

  unfoldable pub listen : Server c S → Pass → Server c S × List Effect
  unfolding serve
  listen s i =
      if not (s.listen_attempt_at == 0) && ltb (elapsed i.listen_now s.listen_attempt_at) 5000
      then (s, [])
      else (let s' : Server c S = record s { listen_attempt_at = i.listen_at } in
          if not i.opened || not i.bound || not i.listens
          then (s', Effect.server_open ∷ Effect.server_close ∷ [])
          else (let (s'', es) = serve (record s' { listening = true }) i in
              (s'', Effect.server_open ∷ es)))

  unfoldable pub disconnect : Server c S → Server c S × List Effect
  disconnect s =
      let (s', es) = if s.peer then close_peer c k s else (s, []) in
      (
        record s' { listening = false },
        es ++ (if s'.listening then Effect.server_close ∷ [] else []),
      )

  unfoldable pub ota_loop : Server c S → Pass → Server c S × List Effect
  unfolding disconnect listen serve
  ota_loop s i =
      if not s.ready
      then (s, [])
      else if not i.wifi_connected
      then disconnect s
      else if not s.listening
      then listen s i
      else serve s i
