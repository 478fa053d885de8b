-- ===== src/Command/Tagged.antt =====
-- What a parsed frame says of its union.
use house_panel.Base.{
  ℕ, ◌+◌, ◌-◌, ◌≤◌, ◌<◌, ◌^◌, ◌≡◌, refl, ◌⊎◌, inl, inr, Bool, true, false, Option, none, some,
  Bytes, length, length-take, bytes_eq, arith, Option-cases, [], if_both, option_both, ◌==◌,
}
use mathlib.Core.Path.{subst}
use house_panel.Base.Int.{ℤ}
use house_panel.Json.{Floats, Json, or_else}
use house_panel.Command.Names.{
  cmd_doorbell, cmd_ticker_append, cmd_weather, cmd_weather_day, cmd_cal_event, cmd_time,
  cmd_sysmon_temp, cmd_ota_pause, cmd_ota_resume, key_cmd,
}
use house_panel.Command.{
  CommandType, Payload, CommandFrame, doorbell, ticker, weather, weather_day, cal_event, time_sync,
  sysmon, read_command, parse_command_frame, copy_text, to_uint32,
}

-- The union's member is the one that the type names, its texts and their terminators fit their arrays,
-- and an epoch has 32 bits.
pub data IsTagged {F : Type 0} : CommandFrame F → Type 0 where
  tagged_doorbell :
      (n : ℤ) → IsTagged (record { type = CommandType.type_doorbell; payload = doorbell n })
  tagged_ticker :
      (t : Bytes)
      → length t + 1 ≤ 128
      → IsTagged (record { type = CommandType.type_ticker_append; payload = ticker t })
  tagged_weather :
      (t high low : F) (co : Bytes)
      → length co + 1 ≤ 32
      → IsTagged (record { type = CommandType.type_weather; payload = weather t co high low })
  tagged_weather_day :
      (i : ℤ) (label co : Bytes) (high low : F)
      → length label + 1 ≤ 4
      → length co + 1 ≤ 26
      → IsTagged (record {
        type = CommandType.type_weather_day;
        payload = weather_day i label high low co;
      })
  tagged_cal_event :
      (i : ℤ) (summary time_str : Bytes) (all_day : Bool)
      → length summary + 1 ≤ 52
      → length time_str + 1 ≤ 18
      → IsTagged (record {
        type = CommandType.type_cal_event;
        payload = cal_event i summary time_str all_day;
      })
  tagged_time_sync :
      (epoch : ℕ) (offset : ℤ)
      → epoch < 2 ^ 32
      → IsTagged (record { type = CommandType.type_time_sync; payload = time_sync epoch offset })
  tagged_sysmon :
      (t h : F) → IsTagged (record { type = CommandType.type_sysmon_temp; payload = sysmon t h })
  tagged_ota_pause :
      (old : Payload F) → IsTagged (record { type = CommandType.type_ota_pause; payload = old })
  tagged_ota_resume :
      (old : Payload F) → IsTagged (record { type = CommandType.type_ota_resume; payload = old })

copy_text-fits : (size : ℕ) (text : Bytes) → 1 ≤ size → length (copy_text size text) + 1 ≤ size
copy_text-fits size text h = omega (arith, h, length-take {0} (size - 1) text)

to_uint32-lt : (n : ℤ) → to_uint32 n < 2 ^ 32
to_uint32-lt (ℤ.pos n) = omega arith
to_uint32-lt (ℤ.negsuc n) = omega arith

-- Tagged, where there is a frame.
abbrev AllTagged : {F : Type 0} → Option (CommandFrame F) → Type 0
AllTagged none = Unit {0}
AllTagged (some frame) = IsTagged frame

module _ (f : Floats) (j : Json f) where
  open f use {Float}
  open j use {Doc, deserialize, text}

  read_command-Tagged :
      (d : Doc) (cmd : Bytes) (old : Payload Float) → AllTagged (read_command f j d cmd old)
  unfolding read_command
  read_command-Tagged d cmd old =
      if_both AllTagged (bytes_eq cmd cmd_doorbell) _ _ (tagged_doorbell _) (
        if_both AllTagged (bytes_eq cmd cmd_ticker_append) _ _
          (tagged_ticker _ (copy_text-fits 128 _ (omega arith)))
          (if_both AllTagged (bytes_eq cmd cmd_weather) _ _
            (tagged_weather _ _ _ _ (copy_text-fits 32 _ (omega arith)))
            (if_both AllTagged (bytes_eq cmd cmd_weather_day) _ _
              (tagged_weather_day _ _ _ _ _ (copy_text-fits 4 _ (omega arith))
                (copy_text-fits 26 _ (omega arith)))
              (if_both AllTagged (bytes_eq cmd cmd_cal_event) _ _
                (tagged_cal_event _ _ _ _ (copy_text-fits 52 _ (omega arith))
                  (copy_text-fits 18 _ (omega arith)))
                (if_both AllTagged (bytes_eq cmd cmd_time) _ _
                  (tagged_time_sync _ _ (to_uint32-lt _))
                  (if_both AllTagged (bytes_eq cmd cmd_sysmon_temp) _ _ (tagged_sysmon _ _) (
                    if_both AllTagged (bytes_eq cmd cmd_ota_pause) _ _ (tagged_ota_pause _) (
                      if_both AllTagged (bytes_eq cmd cmd_ota_resume) _ _ (tagged_ota_resume _)
                        tt))))))))

  -- A frame that is parsed is tagged: its type names the member of the union that was written, the texts
  -- fit their arrays with the terminator, and the epoch has 32 bits. A frame that is not parsed keeps its
  -- old payload, and its type is the old one or UNKNOWN.
  pub parse_command_frame-Tagged :
      (raw : Bytes) (out : CommandFrame Float)
      → (((parse_command_frame f j raw out).0 ≡ true)
          × IsTagged (parse_command_frame f j raw out).1)
        ⊎ (((parse_command_frame f j raw out).0 ≡ false)
            × ((parse_command_frame f j raw out).1.payload ≡ out.payload)
            × (((parse_command_frame f j raw out).1.type ≡ out.type)
                ⊎ ((parse_command_frame f j raw out).1.type ≡ CommandType.type_unknown)))
  unfolding parse_command_frame
  parse_command_frame-Tagged raw out =
      let Fine : Bool × CommandFrame Float → Type 0 = λ q.
        ((q.0 ≡ true) × IsTagged q.1)
        ⊎ ((q.0 ≡ false)
            × (q.1.payload ≡ out.payload)
            × ((q.1.type ≡ out.type) ⊎ (q.1.type ≡ CommandType.type_unknown))) in
      option_both Fine (deserialize raw) _ _ (inr (refl, refl, inl refl)) λ d.
        let cmd = or_else (text d key_cmd) [] in
        if_both Fine (length cmd == 0) _ _ (inr (refl, refl, inl refl))
          (elim (Option-cases (read_command f j d cmd out.payload)) [
            | inl e ↦ rw e (inr (refl, refl, inr refl))
            | inr (frame, e) ↦
                rw e (inl (refl, subst AllTagged e (read_command-Tagged d cmd out.payload)))
          ])
