-- ===== src/Filament/Frame/Quiet.antt =====
-- `receiveFrame` of giga-filament.ino and the connection to WiFi.
use house_panel.Base.{
  ℕ, ◌≡◌, refl, Bool, true, false, List, [], ◌∷◌, arith, leb, ◌==◌, Bytes, bytes_eq, length,
  if_both, option_both,
}
use house_panel.Base.Int.{ℤ, pos, negsuc}
use house_panel.Json.{Floats, Json, or_else}
use house_panel.Filament.Panel.{Panel, Effect, begin_wifi, collect}
use house_panel.Filament.Frame.{
  Arrival, cmd_time, key_cmd, key_epoch, key_utc_offset_min, accept_time, on_sensor, dispatch,
  on_payload, read_payload, receive_frame,
}

unfoldable pub tries_wifi : List Effect → Bool
tries_wifi [] = false
tries_wifi (begin_wifi ∷ es) = true
tries_wifi (e ∷ es) = tries_wifi es

-- Neither an attempt nor a change of what is known of the last one.
pub record IsQuiet {F : Type 0} (p : Panel F) (q : Panel F × List Effect) : Type 0 where
  pub silent : tries_wifi q.1 ≡ false
  pub tried_is : q.0.wifi_tried ≡ p.wifi_tried
  pub last_is : q.0.last_wifi_try ≡ p.last_wifi_try

module _ (f : Floats) (j : Json f) where
  open f use {Float}
  open j use {Doc, deserialize, text, ulong, int}

  on_sensor-IsQuiet :
      (p : Panel Float) (d : Doc) (cmd : Bytes) (received : ℕ)
      → IsQuiet p (on_sensor f j p d cmd received)
  unfolding on_sensor tries_wifi
  on_sensor-IsQuiet p d cmd received = ground arith

  accept_time-IsQuiet :
      (p : Panel Float) (epoch : ℕ) (offset : ℤ) → IsQuiet p (accept_time f j p epoch offset)
  unfolding accept_time tries_wifi
  accept_time-IsQuiet p epoch offset = ground arith

  dispatch-IsQuiet :
      (p : Panel Float) (d : Doc) (received : ℕ) → IsQuiet p (dispatch f j p d received)
  unfolding dispatch
  dispatch-IsQuiet p d received =
      let cmd = or_else (text d key_cmd) [] in
      let sensor = on_sensor-IsQuiet p d cmd received in
      if_both (IsQuiet p) (bytes_eq cmd cmd_time) _ _
        (option_both (IsQuiet p) (ulong d key_epoch) _ _ sensor λ epoch.
          option_both (IsQuiet p) (int d key_utc_offset_min) _ _ sensor
            λ offset. accept_time-IsQuiet p epoch offset)
        sensor

  on_payload-IsQuiet :
      (p : Panel Float) (a : Arrival) (payload : Bytes) → IsQuiet p (on_payload f j p a payload)
  unfolding on_payload tries_wifi
  on_payload-IsQuiet p a payload =
      option_both (IsQuiet p) (deserialize payload) _ _
        (record { silent = refl; tried_is = refl; last_is = refl })
        λ d.
          let q = dispatch-IsQuiet (record p { last_frame = a.now }) d a.received in
          record { silent = q.silent; tried_is = q.tried_is; last_is = q.last_is }

  stopped-IsQuiet : (p : Panel Float) → IsQuiet p (p, Effect.stop_socket ∷ [])
  unfolding tries_wifi
  stopped-IsQuiet p = record { silent = refl; tried_is = refl; last_is = refl }

  same-IsQuiet : (p : Panel Float) → IsQuiet p (p, [])
  unfolding tries_wifi
  same-IsQuiet p = record { silent = refl; tried_is = refl; last_is = refl }

  read_payload-IsQuiet :
      (p : Panel Float) (a : Arrival) (n : ℕ) → IsQuiet p (read_payload f j p a n)
  unfolding read_payload
  read_payload-IsQuiet p a n = if_both (IsQuiet p) (leb 1024 n) _ _ (stopped-IsQuiet p) (
      if_both (IsQuiet p) (length (collect n a.polls) == n) _ _
        (on_payload-IsQuiet p a (collect n a.polls)) (stopped-IsQuiet p))

  on_length-IsQuiet :
      (p : Panel Float) (a : Arrival) (n : ℤ) → a.length ≡ n → IsQuiet p (receive_frame f j p a)
  unfolding receive_frame
  on_length-IsQuiet p a (pos n) e =
      rw (e, receive_frame)
        (if_both (IsQuiet p) (n == 0) _ _ (same-IsQuiet p) (read_payload-IsQuiet p a n))
  on_length-IsQuiet p a (negsuc n) e = rw (e, receive_frame) (same-IsQuiet p)

  pub receive_frame-IsQuiet : (p : Panel Float) (a : Arrival) → IsQuiet p (receive_frame f j p a)
  receive_frame-IsQuiet p a = on_length-IsQuiet p a a.length refl
