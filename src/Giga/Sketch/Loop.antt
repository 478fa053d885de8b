-- ===== src/Giga/Sketch/Loop.antt =====
-- `setup` and `loop` of housepanel-giga.ino.
use house_panel.Base.{
  ℕ, ◌+◌, ◌*◌, ◌/◌, ◌%◌, ◌^◌, Bool, true, false, not, ◌&&◌, ◌||◌, Option, none, some, List, [], ◌∷◌,
  ◌++◌, ltb, leb, ◌==◌, if◌then◌else◌,
}
use house_panel.Base.Int.{neg}
use house_panel.Base.Words.{elapsed}
use house_panel.Json.{Floats, Json}
use house_panel.Command.{CommandFrame}
use house_panel.Giga.Display.{DisplayState, new_display}
use house_panel.Giga.Display.Draw.{
  dismiss_doorbell, display_update_clock, display_update_indicators, display_update_status_detail,
}
use house_panel.Giga.Display.Service.{display_service}
use house_panel.Giga.Socket.{memory_again, ws_loop, ws_send_memory}
use house_panel.Giga.Sketch.{
  Action, Pass, Sketch, data_stale_timeout_ms, dispatch, draws, connect_wifi, force_reconnect,
  connect_socket, send_hello, run_updates, service_display, send_memory,
}

-- `hhmm == _last_clock_hhmm`
abbrev pub is_shown : Option ℕ → ℕ → Bool
is_shown none hhmm = false
is_shown (some last) hhmm = hhmm == last

module _ (f : Floats) where
  open f use {Float}

  unfoldable pub doorbell_timer : Sketch Float → ℕ → Sketch Float × List (Action Float)
  doorbell_timer s now = elim s.display.state [
    | DisplayState.daily_view ↦ (s, [])
    | DisplayState.doorbell_interrupt ↦
        if not (s.doorbell_timeout_ms == 0)
          && leb s.doorbell_timeout_ms (elapsed now s.doorbell_start_ms)
        then (let (d, ds) = dismiss_doorbell f s.display in
            (record s { display = d; doorbell_timeout_ms = 0 }, draws ds))
        else (s, [])
  ]

  unfoldable pub update_clock : Sketch Float → Pass → Sketch Float × List (Action Float)
  update_clock s i =
      if not s.rtc_synced
      then (s, [])
      else (let (h, m) = i.local s.utc_offset_min in
          if is_shown s.last_clock (h * 100 + m)
          then (s, [])
          else (record s { last_clock = some (h * 100 + m) }, draws (display_update_clock f h m)))

  -- The indicators and the status detail.
  unfoldable pub update_status : Sketch Float → Pass → Sketch Float × List (Action Float)
  update_status s i =
      let known = not (s.last_data_rx_ms == 0) in
      let data_ok = known && ltb (elapsed i.data_now s.last_data_rx_ms) data_stale_timeout_ms in
      let age = if known then elapsed i.age_now s.last_data_rx_ms / 1000 else 0 in
      let (d, ds) =
        display_update_status_detail f s.display i.indicator_wifi i.ip i.indicator_ws data_ok age in
      (
        record s { last_indicator_ms = i.indicator_at; display = d },
        draws (display_update_indicators f i.indicator_wifi i.indicator_ws data_ok ++ ds),
      )

  unfoldable pub indicators : Sketch Float → Pass → Sketch Float × List (Action Float)
  unfolding update_status update_clock
  indicators s i =
      if ltb (elapsed i.indicator_now s.last_indicator_ms) 1000
      then (s, [])
      else (let (s', es) = update_status s i in
          let (s'', es') = update_clock s' i in (s'', es ++ es'))

  unfoldable pub check_stale : Sketch Float → Pass → List (Action Float)
  check_stale s i =
      if i.stale_connected
        && not (s.last_data_rx_ms == 0)
        && ltb data_stale_timeout_ms (elapsed i.stale_now s.last_data_rx_ms)
      then force_reconnect ∷ []
      else []

  -- `ws_send_hello` makes the next memory frame due.
  unfoldable pub retry : Sketch Float → Pass → Sketch Float × List (Action Float)
  retry s i =
      if i.retry_connected || ltb (elapsed i.retry_now s.last_ws_attempt_ms) 5000
      then (s, [])
      else (let s' : Sketch Float = record s { last_ws_attempt_ms = i.retry_at } in
          if i.connects
          then (
            record s' { last_data_rx_ms = i.hello_at; memory = memory_again s.memory },
            connect_socket ∷ send_hello ∷ [],
          )
          else (s', connect_socket ∷ []))

  unfoldable pub send_memory_step : Sketch Float → Pass → Sketch Float × List (Action Float)
  send_memory_step s i =
      let (d, sent) = ws_send_memory s.memory i.memory_connected i.memory_now i.collected in
      (record s { memory = d }, elim sent [ none ↦ [] | some text ↦ send_memory text ∷ [] ])

  unfoldable pub service_step : Sketch Float → Pass → Sketch Float × List (Action Float)
  unfolding display_service
  service_step s i =
      let (d, ds) = display_service f s.display i.callbacks in
      (record s { display = d }, service_display ∷ draws ds)

  module _ (j : Json f) (blank : CommandFrame Float) where
    -- From `ws_loop()` on.
    unfoldable pub listen : Sketch Float → Pass → Sketch Float × List (Action Float)
    unfolding send_memory_step dispatch doorbell_timer indicators service_step
    listen s i =
        let (ready, frame) = ws_loop f j s.frame_ready s.last_frame blank i.message in
        let (s₁, es₁) = send_memory_step (record s { frame_ready = ready; last_frame = frame }) i in
        let (s₂, es₂) = dispatch f s₁ i.frame_at in
        let (s₃, es₃) = doorbell_timer s₂ i.doorbell_now in
        let (s₄, es₄) = indicators s₃ i in
        let (s₅, es₅) = service_step s₄ i in (s₅, es₁ ++ (es₂ ++ (es₃ ++ (es₄ ++ es₅))))

    unfoldable pub loop : Sketch Float → Pass → Sketch Float × List (Action Float)
    unfolding check_stale retry listen
    loop s i =
        let s' : Sketch Float = record s { loop_count = (s.loop_count + 1) % 2 ^ 32 } in
        let wifi = if i.wifi_status then [] else connect_wifi ∷ [] in
        let (s₁, es₁) = retry s' i in
        let (s₂, es₂) = listen s₁ i in
        (s₂, run_updates ∷ (wifi ++ (check_stale s' i ++ (es₁ ++ es₂))))

    -- The state after the passes.
    unfoldable pub run_loop : Sketch Float → List Pass → Sketch Float
    run_loop s [] = s
    run_loop s (i ∷ passes) = run_loop (loop s i).0 passes

  -- The initialisers.
  unfoldable pub new_sketch : CommandFrame Float → Sketch Float
  new_sketch frame = record {
    rtc_synced = false;
    utc_offset_min = neg 480;
    last_clock = none;
    doorbell_start_ms = 0;
    doorbell_timeout_ms = 0;
    last_data_rx_ms = 0;
    last_indicator_ms = 0;
    last_ws_attempt_ms = 0;
    cal_text = [];
    cal_text_len = 0;
    loop_count = 0;
    frame_ready = false;
    last_frame = frame;
    memory = record { first = true; last = 0 };
    display = new_display f;
  }

  -- `setup`: whether the first connection succeeds, and the clock where it reads it.
  unfoldable pub setup : Sketch Float → Bool → ℕ → ℕ → Sketch Float × List (Action Float)
  setup s connects hello_at attempt_at =
      let s' : Sketch Float = record s { last_ws_attempt_ms = attempt_at } in
      if connects
      then (
        record s' { last_data_rx_ms = hello_at; memory = memory_again s.memory },
        connect_wifi ∷ connect_socket ∷ send_hello ∷ [],
      )
      else (s', connect_wifi ∷ connect_socket ∷ [])
