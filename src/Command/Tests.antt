-- ===== src/Command/Tests.antt =====
-- Frames of the parser. A payload is the command's text, every text member is one of 200 bytes, and the
-- other members are missing.
use house_panel.Base.{
  ℕ, ◌≡◌, ◌⊎◌, refl, Bool, true, false, none, some, if◌then◌else◌, Bytes, bytes_eq, replicate,
}
use house_panel.Base.Int.{pos}
use house_panel.Json.{Json}
use house_panel.Json.Toy.{tenth_floats}
use house_panel.Command.Names.{cmd_weather_day, key_cmd}
use house_panel.Command.{
  CommandType, CommandFrame, Payload, doorbell, weather_day, parse_command_frame,
}
use house_panel.Command.Tagged.{IsTagged, parse_command_frame-Tagged}

abbrev long_text : Bytes
long_text = replicate 200 b'x'

abbrev echo : Json tenth_floats
echo = record {
  Doc = Bytes;
  deserialize = λ raw. some raw;
  text = λ d k. some (if bytes_eq k key_cmd then d else long_text);
  int = λ d k. none;
  ulong = λ d k. none;
  bool = λ d k. none;
  float = λ d k. none;
}

abbrev old_frame : CommandFrame ℕ
old_frame = record { type = CommandType.type_doorbell; payload = doorbell (pos 5) }

abbrev parsed : Bool × CommandFrame ℕ
parsed = parse_command_frame tenth_floats echo cmd_weather_day old_frame

weather_day_run : parsed ≡ (
  true,
  record {
    type = CommandType.type_weather_day;
    payload = weather_day (pos 0) (replicate 3 b'x') 0 0 (replicate 25 b'x');
  },
)
unfolding parse_command_frame house_panel.Command.read_command
weather_day_run = refl

parse_command_frame-Tagged_example :
    ((parsed.0 ≡ true) × IsTagged parsed.1)
    ⊎ ((parsed.0 ≡ false)
        × (parsed.1.payload ≡ old_frame.payload)
        × ((parsed.1.type ≡ old_frame.type) ⊎ (parsed.1.type ≡ CommandType.type_unknown)))
parse_command_frame-Tagged_example =
    parse_command_frame-Tagged tenth_floats echo cmd_weather_day old_frame
