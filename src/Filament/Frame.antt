-- ===== src/Filament/Frame.antt =====
-- `receiveFrame` of giga-filament.ino: one frame of the server.
pub mod Sane
pub mod Quiet
use house_panel.Base.{
  ℕ, zero, suc, ◌+◌, ◌-◌, ◌*◌, ◌^◌, ◌≤◌, ◌<◌, ◌≡◌, refl, ◌⊎◌, inl, inr, Bool, true, false, not,
  ◌&&◌, ◌||◌, Option, none, some, List, [], ◌∷◌, arith, ltb, leb, ◌==◌, if◌then◌else◌, Bytes,
  bytes_eq, length, Bool-cases, Option-cases,
}
use house_panel.Base.Int.{ℤ, pos, neg, ◌≤ℤ◌, ltb_ℤ}
use house_panel.Json.{Floats, Json, or_else}
use house_panel.Filament.Panel.{Panel, Effect, stop_socket, set_time, Poll, collect, new_panel}

-- The texts of the commands and of the members.
abbrev pub cmd_time : Bytes
cmd_time = b'T' ∷ b'I' ∷ b'M' ∷ b'E' ∷ []

abbrev pub cmd_outdoor_temp : Bytes
cmd_outdoor_temp =
    b'O' ∷ b'U' ∷ b'T' ∷ b'D' ∷ b'O' ∷ b'O' ∷ b'R' ∷ b'_' ∷ b'T' ∷ b'E' ∷ b'M' ∷ b'P' ∷ []

abbrev pub cmd_sysmon_temp : Bytes
cmd_sysmon_temp = b'S' ∷ b'Y' ∷ b'S' ∷ b'M' ∷ b'O' ∷ b'N' ∷ b'_' ∷ b'T' ∷ b'E' ∷ b'M' ∷ b'P' ∷ []

abbrev pub key_cmd : Bytes
key_cmd = b'c' ∷ b'm' ∷ b'd' ∷ []

abbrev pub key_epoch : Bytes
key_epoch = b'e' ∷ b'p' ∷ b'o' ∷ b'c' ∷ b'h' ∷ []

abbrev pub key_utc_offset_min : Bytes
key_utc_offset_min =
    b'u' ∷ b't' ∷ b'c' ∷ b'_' ∷ b'o' ∷ b'f' ∷ b'f' ∷ b's' ∷ b'e' ∷ b't' ∷ b'_' ∷ b'm' ∷ b'i' ∷ b'n'
    ∷ []

abbrev pub key_available : Bytes
key_available = b'a' ∷ b'v' ∷ b'a' ∷ b'i' ∷ b'l' ∷ b'a' ∷ b'b' ∷ b'l' ∷ b'e' ∷ []

abbrev pub key_t : Bytes
key_t = b't' ∷ []

abbrev pub key_h : Bytes
key_h = b'h' ∷ []

abbrev pub key_measured_at : Bytes
key_measured_at = b'm' ∷ b'e' ∷ b'a' ∷ b's' ∷ b'u' ∷ b'r' ∷ b'e' ∷ b'd' ∷ b'_' ∷ b'a' ∷ b't' ∷ []

-- The arrival of a frame: what parseMessage() says, the polls of the reading loop, and millis() at the
-- two places where it is read.
pub record Arrival : Type 0 where
  pub length : ℤ
  pub polls : List Poll
  pub now : ℕ
  pub received : ℕ

module _ (f : Floats) (j : Json f) where
  open f use {Float, tenths, le, is_finite}
  open j use {Doc, deserialize, text, int, ulong, bool, float}

  accept_time : Panel Float → ℕ → ℤ → Panel Float × List Effect
  accept_time p epoch offset =
      if leb 1_700_000_000 epoch && not (ltb_ℤ offset (neg 840)) && not (ltb_ℤ (pos 840) offset)
      then (record p { offset_minutes = offset; clock_ready = true }, set_time epoch ∷ [])
      else (p, [])

  accept_reading : Panel Float → Bool → Float → Float → ℕ → ℕ → Panel Float
  accept_reading p outdoor t h measured received =
      if is_finite t && is_finite h && le (tenths 0) h && le h (tenths 1000)
      then (if outdoor
          then record p {
            outdoor_temperature = t;
            outdoor_humidity = h;
            outdoor_measured_at = measured;
            outdoor_received_at = received;
            outdoor_ready = true;
          }
          else record p {
            temperature = t;
            humidity = h;
            sensor_measured_at = measured;
            sensor_ready = true;
          })
      else p

  -- The last branch: a reading of either sensor.
  on_reading : Panel Float → Doc → Bool → ℕ → Panel Float × List Effect
  unfolding accept_reading
  on_reading p d outdoor received = elim (float d key_t) [
    | none ↦ (p, [])
    | some t ↦ elim (float d key_h) [
      | none ↦ (p, [])
      | some h ↦ (accept_reading p outdoor t h (or_else (ulong d key_measured_at) 0) received, [])
    ]
  ]

  -- `available` is there and false.
  unavailable : Doc → Bool
  unavailable d = elim (bool d key_available) [ none ↦ false | some b ↦ not b ]

  on_sensor : Panel Float → Doc → Bytes → ℕ → Panel Float × List Effect
  unfolding on_reading unavailable
  on_sensor p d cmd received =
      if bytes_eq cmd cmd_outdoor_temp && unavailable d
      then (record p { outdoor_ready = false }, [])
      else if bytes_eq cmd cmd_sysmon_temp || bytes_eq cmd cmd_outdoor_temp
      then on_reading p d (bytes_eq cmd cmd_outdoor_temp) received
      else (p, [])

  unfoldable pub dispatch : Panel Float → Doc → ℕ → Panel Float × List Effect
  unfolding accept_time on_sensor
  dispatch p d received =
      let cmd = or_else (text d key_cmd) [] in
      if bytes_eq cmd cmd_time
      then elim (ulong d key_epoch) [
        | none ↦ on_sensor p d cmd received
        | some epoch ↦ elim (int d key_utc_offset_min) [
          | none ↦ on_sensor p d cmd received
          | some offset ↦ accept_time p epoch offset
        ]
      ]
      else on_sensor p d cmd received

  on_payload : Panel Float → Arrival → Bytes → Panel Float × List Effect
  unfolding dispatch
  on_payload p a payload = elim (deserialize payload) [
    | none ↦ (record p { last_frame = a.now }, [])
    | some d ↦ dispatch (record p { last_frame = a.now }) d a.received
  ]

  -- `payload` has 1024 bytes.
  read_payload : Panel Float → Arrival → ℕ → Panel Float × List Effect
  unfolding on_payload
  read_payload p a n =
      if leb 1024 n
      then (p, stop_socket ∷ [])
      else if length (collect n a.polls) == n
      then on_payload p a (collect n a.polls)
      else (p, stop_socket ∷ [])

  unfoldable pub receive_frame : Panel Float → Arrival → Panel Float × List Effect
  unfolding read_payload
  receive_frame p a = elim a.length [
    | ℤ.pos n ↦ if n == 0 then (p, []) else read_payload p a n
    | ℤ.negsuc n ↦ (p, [])
  ]

  unfoldable pub run_frames : Panel Float → List Arrival → Panel Float
  run_frames p [] = p
  run_frames p (a ∷ as') = run_frames (receive_frame p a).0 as'
