-- ===== src/Ota/Server/Status.antt =====
-- `status` and `ota_init` of ota_update.cpp.
use house_panel.Base.{
  ℕ, ◌-◌, ◌*◌, Bool, true, false, not, ◌&&◌, none, some, List, [], ◌++◌, ◌==◌, if◌then◌else◌, Bytes,
  bytes_eq, take, codes,
}
use house_panel.Ota.Crypto.{Crypto, Sink}
use house_panel.Ota.Hex.{to_hex}
use house_panel.Ota.Receiver.{slice, configure, challenge, sign}
use house_panel.Ota.Server.{
  Config, Server, Pass, Effect, AfterReply, Entropy, identity_of, random_bytes,
}
use house_panel.Ota.Server.Reply.{close_peer, reply}

-- The text of the format string, before snprintf cuts it.
unfoldable pub response_text : Config → Bytes → Bool → Bytes → Bytes → Bytes → Bytes
response_text g boot_id nonce_valid reason nonce_hex request_nonce =
    codes "{\"protocol\":1,\"panel_id\":\""
    ++ (g.panel_id
        ++ (codes "\",\"hostname\":\""
            ++ (g.hostname
                ++ (codes "\",\"firmware\":\""
                    ++ (g.firmware
                        ++ (codes "\",\"revision\":\""
                            ++ (g.revision
                                ++ (codes "\",\"interface\":\""
                                    ++ (g.interface
                                        ++ (codes "\",\"identity\":\""
                                            ++ (identity_of g
                                                ++ (codes "\",\"boot_id\":\""
                                                    ++ (boot_id
                                                        ++ (codes "\",\"ready\":"
                                                            ++ ((if nonce_valid
                                                            then codes "true"
                                                            else codes "false")
                                                            ++ (codes ",\"reason\":\""
                                                            ++ (reason
                                                            ++ (codes "\",\"challenge\":\""
                                                            ++ (nonce_hex
                                                            ++ (codes "\",\"request_nonce\":\""
                                                            ++ (request_nonce
                                                            ++ codes "\"}\n")))))))))))))))))))))

-- snprintf into `char response[512]`.
abbrev pub response_capacity : ℕ
response_capacity = 512

module _ (c : Crypto) {S : Type 0} (k : Sink S) (g : Config) where
  -- A fresh nonce is challenged; without one the last one is void.
  unfoldable pub renew : Server c S → Pass → Server c S
  unfolding challenge random_bytes
  renew s i =
      if s.ready
      then elim (random_bytes i.entropy 32) [
        | none ↦ record s { nonce_valid = false; nonce_hex = [] }
        | some nonce ↦ record s {
          nonce_valid = true;
          nonce = nonce;
          nonce_hex = to_hex nonce;
          receiver = challenge c s.receiver nonce;
          challenge_at = i.challenged_at;
        }
      ]
      else record s { nonce_valid = false; nonce_hex = [] }

  unfoldable pub response : Server c S → Bytes
  unfolding response_text
  response s =
      take (response_capacity - 1) (
        response_text g s.boot_id s.nonce_valid s.reason s.nonce_hex (to_hex (slice 8 32 s.header)))

  -- The response, and the newline after its tag.
  unfoldable pub answer : Server c S → Pass → Server c S × List Effect
  unfolding response
  answer s i = elim (sign c s.receiver (response s)) [
    | none ↦ close_peer c k s
    | some tag ↦
        reply c k s i.reply_at (response s) AfterReply.close_after (to_hex tag ++ codes "\n")
  ]

  unfoldable pub status : Server c S → Pass → Server c S × List Effect
  unfolding renew answer
  status s i = answer (renew s i) i

-- What `ota_init` asks of the bootloader, the partition and the volume; the partition's limits and type
-- are those that it reports.
pub record Storage : Type 0 where
  pub ota_capable : Bool
  pub partition_ready : Bool
  pub start : ℕ
  pub stop : ℕ
  pub kind : ℕ
  pub mounted : Bool

abbrev pub panel_of : Bytes → ℕ
panel_of panel_id =
    if bytes_eq panel_id (codes "primary")
    then 1
    else if bytes_eq panel_id (codes "panel-2")
    then 2
    else 0

module _ (c : Crypto) {S : Type 0} (g : Config) where
  -- From `updater.isOtaCapable()` on.
  unfoldable pub check_storage : Server c S → Storage → Server c S
  check_storage s d =
      if not d.ota_capable
      then record s { reason = codes "bootloader_not_ota_capable" }
      else if not d.partition_ready
      then record s { reason = codes "partition_not_ready" }
      else if not (d.start == 1024 * 1024 && d.stop == 6 * 1024 * 1024 && d.kind == 0x0b)
      then record s { reason = codes "partition_layout_mismatch" }
      else if not d.mounted
      then record s { reason = codes "storage_not_ready" }
      else record s { ready = true; reason = codes "ready" }

  unfoldable pub ota_init : Server c S → Entropy → Storage → Server c S
  unfolding check_storage random_bytes
  ota_init s e d =
      let (ok, r) =
        configure c s.receiver (some g.key_hex) (panel_of g.panel_id) (some (identity_of g)) in
      if not ok
      then record s { receiver = r; reason = codes "key_not_provisioned" }
      else elim (random_bytes e 16) [
        | none ↦ record s { receiver = r; reason = codes "entropy_unavailable" }
        | some boot ↦ check_storage (record s { receiver = r; boot_id = to_hex boot }) d
      ]
