-- ===== src/Command/Names.antt =====
-- The texts of command_parser.cpp: the commands and the members' keys.
use house_panel.Base.{[], ◌∷◌, Bytes}

abbrev pub cmd_doorbell : Bytes
cmd_doorbell = b'D' ∷ b'O' ∷ b'O' ∷ b'R' ∷ b'B' ∷ b'E' ∷ b'L' ∷ b'L' ∷ []

abbrev pub cmd_ticker_append : Bytes
cmd_ticker_append =
    b'T' ∷ b'I' ∷ b'C' ∷ b'K' ∷ b'E' ∷ b'R' ∷ b'-' ∷ b'A' ∷ b'P' ∷ b'P' ∷ b'E' ∷ b'N' ∷ b'D' ∷ []

abbrev pub cmd_weather : Bytes
cmd_weather = b'W' ∷ b'E' ∷ b'A' ∷ b'T' ∷ b'H' ∷ b'E' ∷ b'R' ∷ []

abbrev pub cmd_weather_day : Bytes
cmd_weather_day = b'W' ∷ b'E' ∷ b'A' ∷ b'T' ∷ b'H' ∷ b'E' ∷ b'R' ∷ b'_' ∷ b'D' ∷ b'A' ∷ b'Y' ∷ []

abbrev pub cmd_cal_event : Bytes
cmd_cal_event = b'C' ∷ b'A' ∷ b'L' ∷ b'_' ∷ b'E' ∷ b'V' ∷ b'E' ∷ b'N' ∷ b'T' ∷ []

abbrev pub cmd_time : Bytes
cmd_time = b'T' ∷ b'I' ∷ b'M' ∷ b'E' ∷ []

abbrev pub cmd_sysmon_temp : Bytes
cmd_sysmon_temp = b'S' ∷ b'Y' ∷ b'S' ∷ b'M' ∷ b'O' ∷ b'N' ∷ b'_' ∷ b'T' ∷ b'E' ∷ b'M' ∷ b'P' ∷ []

abbrev pub cmd_ota_pause : Bytes
cmd_ota_pause = b'O' ∷ b'T' ∷ b'A' ∷ b'-' ∷ b'P' ∷ b'A' ∷ b'U' ∷ b'S' ∷ b'E' ∷ []

abbrev pub cmd_ota_resume : Bytes
cmd_ota_resume = b'O' ∷ b'T' ∷ b'A' ∷ b'-' ∷ b'R' ∷ b'E' ∷ b'S' ∷ b'U' ∷ b'M' ∷ b'E' ∷ []

abbrev pub key_cmd : Bytes
key_cmd = b'c' ∷ b'm' ∷ b'd' ∷ []

abbrev pub key_timeout_seconds : Bytes
key_timeout_seconds =
    b't' ∷ b'i' ∷ b'm' ∷ b'e' ∷ b'o' ∷ b'u' ∷ b't' ∷ b'_' ∷ b's' ∷ b'e' ∷ b'c' ∷ b'o' ∷ b'n' ∷ b'd'
    ∷ b's' ∷ []

abbrev pub key_text : Bytes
key_text = b't' ∷ b'e' ∷ b'x' ∷ b't' ∷ []

abbrev pub key_t : Bytes
key_t = b't' ∷ []

abbrev pub key_h : Bytes
key_h = b'h' ∷ []

abbrev pub key_l : Bytes
key_l = b'l' ∷ []

abbrev pub key_co : Bytes
key_co = b'c' ∷ b'o' ∷ []

abbrev pub key_i : Bytes
key_i = b'i' ∷ []

abbrev pub key_lo : Bytes
key_lo = b'l' ∷ b'o' ∷ []

abbrev pub key_c : Bytes
key_c = b'c' ∷ []

abbrev pub key_a : Bytes
key_a = b'a' ∷ []

abbrev pub key_s : Bytes
key_s = b's' ∷ []

abbrev pub key_epoch : Bytes
key_epoch = b'e' ∷ b'p' ∷ b'o' ∷ b'c' ∷ b'h' ∷ []

abbrev pub key_utc_offset_min : Bytes
key_utc_offset_min =
    b'u' ∷ b't' ∷ b'c' ∷ b'_' ∷ b'o' ∷ b'f' ∷ b'f' ∷ b's' ∷ b'e' ∷ b't' ∷ b'_' ∷ b'm' ∷ b'i' ∷ b'n'
    ∷ []
