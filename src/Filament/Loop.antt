-- ===== src/Filament/Loop.antt =====
-- `loop` of giga-filament.ino with `connectSocket`: when the network is tried, watched and given up,
-- and when the screen is drawn. `ota_loop`, the first call of a pass, is the effect `run_updates`: it works on
-- variables of its own, those of ota_update.cpp, which Ota/Server.antt models.
pub mod Attempts
use house_panel.Base.{ℕ, Bool, true, not, ◌||◌, List, [], ◌∷◌, ◌++◌, ltb, if◌then◌else◌}
use house_panel.Base.Words.{elapsed}
use house_panel.Json.{Floats, Json}
use house_panel.Filament.Panel.{
  Panel, Effect, run_updates, draw_screen, stop_socket, begin_wifi, begin_socket, send_hello,
  log_report, TouchPoll, poll_touch,
}
use house_panel.Filament.Frame.{Arrival, receive_frame}

-- What one pass reads: the touch poll, millis() at its places, the state of WiFi and socket, whether
-- the handshake and the hello succeed, and the frame that is there.
pub record Pass : Type 0 where
  pub touch : TouchPoll
  pub now : ℕ
  pub wifi_connected : Bool
  pub socket_connected : Bool
  pub handshake : Bool
  pub hello_sent : Bool
  pub connected_at : ℕ
  pub arrival : Arrival
  pub checked_at : ℕ
  pub drawn_at : ℕ

module _ {F : Type 0} where
  -- `connectSocket`: the client is built anew, and stopped again where a step fails.
  unfoldable pub connect_socket : Panel F → Pass → Panel F × List Effect
  connect_socket p i =
      if not i.handshake
      then (p, stop_socket ∷ begin_socket ∷ stop_socket ∷ [])
      else if not i.hello_sent
      then (p, stop_socket ∷ begin_socket ∷ send_hello ∷ stop_socket ∷ [])
      else (record p { last_frame = i.connected_at }, stop_socket ∷ begin_socket ∷ send_hello ∷ [])

  try_wifi : Panel F → Pass → Panel F × List Effect
  try_wifi p i =
      if not p.wifi_tried || not (ltb (elapsed i.now p.last_wifi_try) 15_000)
      then (record p { wifi_tried = true; last_wifi_try = i.now }, stop_socket ∷ begin_wifi ∷ [])
      else (p, [])

  try_socket : Panel F → Pass → Panel F × List Effect
  try_socket p i =
      if not p.socket_tried || not (ltb (elapsed i.now p.last_socket_try) 5000)
      then connect_socket (record p { socket_tried = true; last_socket_try = i.now }) i
      else (p, [])

  -- The two timers at the end of the loop.
  unfoldable pub timers : Panel F → Pass → Panel F × List Effect
  timers p i =
      let draw = not (ltb (elapsed i.drawn_at p.last_draw) 1000) in
      let tell = not (ltb (elapsed i.drawn_at p.last_report) 5000) in
      (
        record p {
          last_draw = if draw then i.drawn_at else p.last_draw;
          last_report = if tell then i.drawn_at else p.last_report;
        },
        (if draw then draw_screen ∷ [] else []) ++ (if tell then log_report ∷ [] else []),
      )

module _ (f : Floats) (j : Json f) where
  open f use {Float}

  watch : Panel Float → Pass → Panel Float × List Effect
  watch p i =
      let (p', es) = receive_frame f j p i.arrival in
      if ltb 90_000 (elapsed i.checked_at p'.last_frame)
      then (p', es ++ stop_socket ∷ [])
      else (p', es)

  unfoldable pub network_step : Panel Float → Pass → Panel Float × List Effect
  unfolding try_wifi try_socket watch connect_socket
  network_step p i =
      if not i.wifi_connected
      then try_wifi p i
      else if not i.socket_connected
      then try_socket p i
      else watch p i

  unfoldable pub loop : Panel Float → Pass → Panel Float × List Effect
  unfolding network_step timers
  loop p i =
      let (p₁, es₁) = poll_touch p i.touch in
      let (p₂, es₂) = network_step p₁ i in
      let (p₃, es₃) = timers p₂ i in (p₃, run_updates ∷ (es₁ ++ (es₂ ++ es₃)))
