-- ===== src/Command.antt =====
-- firmware/housepanel-giga/command_parser.{h,cpp}: a frame of the server as a command of the panel.
pub mod Names
pub mod Tagged
mod Tests
use house_panel.Base.{
  ℕ, ◌+◌, ◌-◌, ◌%◌, ◌^◌, Bool, true, false, Option, none, some, ◌==◌, ltb, if◌then◌else◌, Bytes,
  bytes_eq, length, take, [],
}
use house_panel.Base.Int.{ℤ, pos, neg, sub_ℕ}
use house_panel.Json.{Floats, Json, or_else}
use Names.*

pub data CommandType : Type 0 where
  type_doorbell type_ticker_append type_weather type_weather_day type_cal_event type_time_sync :
      CommandType
  type_sysmon_temp type_ota_pause type_ota_resume type_unknown : CommandType

-- The union: the member that was written last, its texts without their terminators.
pub data Payload (F : Type 0) : Type 0 where
  doorbell : ℤ → Payload F
  ticker : Bytes → Payload F
  weather : F → Bytes → F → F → Payload F
  weather_day : ℤ → Bytes → F → F → Bytes → Payload F
  cal_event : ℤ → Bytes → Bytes → Bool → Payload F
  time_sync : ℕ → ℤ → Payload F
  sysmon : F → F → Payload F

pub record CommandFrame (F : Type 0) : Type 0 where
  pub type : CommandType
  pub payload : Payload F

-- `strncpy` into an array of `size` bytes, with the terminator in the last one.
abbrev pub copy_text : ℕ → Bytes → Bytes
copy_text size text = take (size - 1) text

-- `(uint32_t)` and `(int16_t)` of an int.
abbrev pub to_uint32 : ℤ → ℕ
to_uint32 (ℤ.pos n) = n % 2 ^ 32
to_uint32 (ℤ.negsuc n) = 2 ^ 32 - 1 - n % 2 ^ 32

abbrev pub to_int16 : ℤ → ℤ
to_int16 (ℤ.pos n) =
    if ltb (n % 2 ^ 16) (2 ^ 15) then pos (n % 2 ^ 16) else sub_ℕ (n % 2 ^ 16) (2 ^ 16)
to_int16 (ℤ.negsuc n) =
    if ltb (n % 2 ^ 16) (2 ^ 15) then ℤ.negsuc (n % 2 ^ 16) else pos (2 ^ 16 - 1 - n % 2 ^ 16)

module _ (f : Floats) (j : Json f) where
  open f use {Float, tenths}
  open j use {Doc, deserialize, text, int, bool, float}

  abbrev text_of : Doc → Bytes → Bytes
  text_of d k = or_else (text d k) []

  abbrev float_of : Doc → Bytes → Float → Float
  float_of d k fallback = or_else (float d k) fallback

  -- The branches of the chain of comparisons, in its order; `none` is the text of no command.
  unfoldable pub read_command : Doc → Bytes → Payload Float → Option (CommandFrame Float)
  read_command d cmd old =
      if bytes_eq cmd cmd_doorbell
      then some (record {
        type = CommandType.type_doorbell;
        payload = doorbell (or_else (int d key_timeout_seconds) (pos 30));
      })
      else if bytes_eq cmd cmd_ticker_append
      then some (record {
        type = CommandType.type_ticker_append;
        payload = ticker (copy_text 128 (text_of d key_text));
      })
      else if bytes_eq cmd cmd_weather
      then (let temp = float_of d key_t (tenths 0) in
          some (record {
            type = CommandType.type_weather;
            payload =
                weather temp (copy_text 32 (text_of d key_co)) (float_of d key_h temp)
                  (float_of d key_l temp);
          }))
      else if bytes_eq cmd cmd_weather_day
      then some (record {
        type = CommandType.type_weather_day;
        payload =
            weather_day (or_else (int d key_i) (pos 0)) (copy_text 4 (text_of d key_l))
              (float_of d key_h (tenths 0)) (float_of d key_lo (tenths 0))
              (copy_text 26 (text_of d key_c));
      })
      else if bytes_eq cmd cmd_cal_event
      then some (record {
        type = CommandType.type_cal_event;
        payload =
            cal_event (or_else (int d key_i) (pos 0)) (copy_text 52 (text_of d key_s))
              (copy_text 18 (text_of d key_t)) (or_else (bool d key_a) false);
      })
      else if bytes_eq cmd cmd_time
      then some (record {
        type = CommandType.type_time_sync;
        payload =
            time_sync (to_uint32 (or_else (int d key_epoch) (pos 0)))
              (to_int16 (or_else (int d key_utc_offset_min) (neg 480)));
      })
      else if bytes_eq cmd cmd_sysmon_temp
      then some (record {
        type = CommandType.type_sysmon_temp;
        payload = sysmon (float_of d key_t (tenths 0)) (float_of d key_h (tenths 0));
      })
      else if bytes_eq cmd cmd_ota_pause
      then some (record { type = CommandType.type_ota_pause; payload = old })
      else if bytes_eq cmd cmd_ota_resume
      then some (record { type = CommandType.type_ota_resume; payload = old })
      else none

  unfoldable pub parse_command_frame : Bytes → CommandFrame Float → Bool × CommandFrame Float
  unfolding read_command
  parse_command_frame raw out = elim (deserialize raw) [
    | none ↦ (false, out)
    | some d ↦
        let cmd = text_of d key_cmd in
        if length cmd == 0 then (false, out) else elim (read_command d cmd out.payload) [
          | none ↦ (false, record out { type = CommandType.type_unknown })
          | some frame ↦ (true, frame)
        ]
  ]
