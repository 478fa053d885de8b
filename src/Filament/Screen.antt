-- ===== src/Filament/Screen.antt =====
-- `drawScreen` of giga-filament.ino up to the text formatting: which values it shows. The texts that
-- strftime and snprintf make of them belong to the C library.
use house_panel.Base.{
  ℕ, ◌+◌, ◌*◌, ◌≤◌, ◌<◌, ◌≡◌, ◌≢◌, Bool, true, not, ◌&&◌, Option, none, some, arith, ltb,
  if◌then◌else◌,
}
use house_panel.Base.Int.{ℤ, pos, ◌+ℤ◌}
use house_panel.Base.Words.{elapsed}
use house_panel.Json.{Floats}
use house_panel.Filament.Units.{unit_value, symbol}
use house_panel.Filament.Freshness.{sensor_is_fresh, sensor_is_fresh_iff}
use house_panel.Filament.Panel.{Panel}

pub data Status : Type 0 where
  connecting waiting live : Status

-- A reading in the chosen unit, with its humidity; `none` is a row of dashes.
pub record Screen (F : Type 0) : Type 0 where
  pub clock : Option ℤ
  pub unit : ℕ
  pub indoor : Option (F × F)
  pub outdoor : Option (F × F)
  pub status : Status

-- What is read from outside: time(nullptr) where the clock's text, the filament reading and the outdoor
-- reading need it, millis() and socket.connected().
pub record Now : Type 0 where
  pub clock_seconds : ℕ
  pub indoor_seconds : ℕ
  pub outdoor_seconds : ℕ
  pub millis : ℕ
  pub connected : Bool

module _ {F : Type 0} where
  unfoldable pub indoor_fresh : Panel F → Now → Bool
  indoor_fresh p n =
      p.sensor_ready && sensor_is_fresh p.clock_ready n.indoor_seconds p.sensor_measured_at 300

  unfoldable pub outdoor_fresh : Panel F → Now → Bool
  outdoor_fresh p n =
      p.outdoor_ready
      && ltb (elapsed n.millis p.outdoor_received_at) 180_000
      && sensor_is_fresh p.clock_ready n.outdoor_seconds p.outdoor_measured_at 3600

-- `offsetMinutes * 60`
abbrev pub minutes_to_seconds : ℤ → ℤ
minutes_to_seconds (ℤ.pos n) = pos (n * 60)
minutes_to_seconds (ℤ.negsuc n) = ℤ.negsuc (n * 60 + 59)

module _ (f : Floats) where
  open f use {Float}

  unfoldable pub draw_screen : Panel Float → Now → Screen Float
  unfolding indoor_fresh outdoor_fresh
  draw_screen p n = record {
    clock =
        if p.clock_ready
        then some (pos n.clock_seconds +ℤ minutes_to_seconds p.offset_minutes)
        else none;
    unit = symbol p.units;
    indoor =
        if indoor_fresh p n then some (unit_value f p.units p.temperature, p.humidity) else none;
    outdoor =
        if outdoor_fresh p n
        then some (unit_value f p.units p.outdoor_temperature, p.outdoor_humidity)
        else none;
    status =
        if not n.connected
        then Status.connecting
        else if not (indoor_fresh p n && outdoor_fresh p n)
        then Status.waiting
        else Status.live;
  }

  -- What a live screen stands for.
  pub record IsLive (p : Panel Float) (n : Now) : Type 0 where
    pub connected : n.connected ≡ true
    pub clock : p.clock_ready ≡ true
    pub indoor_known : p.sensor_ready ≡ true
    pub indoor_past : p.sensor_measured_at ≤ n.indoor_seconds
    pub indoor_young : n.indoor_seconds < p.sensor_measured_at + 300
    pub outdoor_known : p.outdoor_ready ≡ true
    pub outdoor_past : p.outdoor_measured_at ≤ n.outdoor_seconds
    pub outdoor_young : n.outdoor_seconds < p.outdoor_measured_at + 3600
    pub outdoor_received : elapsed n.millis p.outdoor_received_at < 180_000

  -- The screen says "Live" only if the socket is connected, the clock is set, the filament reading was
  -- measured less than five minutes ago, and the outdoor reading less than an hour ago and received in
  -- the last three minutes, each by the clock where its test reads it; and then it shows both readings.
  pub draw_screen-IsLive :
      (p : Panel Float) (n : Now)
      → (draw_screen p n).status ≡ Status.live
      → IsLive p n
        × ((draw_screen p n).indoor ≡ some (unit_value f p.units p.temperature, p.humidity))
        × ((draw_screen p n).outdoor
            ≡ some (unit_value f p.units p.outdoor_temperature, p.outdoor_humidity))
  unfolding draw_screen
  draw_screen-IsLive p n h = ground (
    arith,
    sensor_is_fresh_iff p.clock_ready n.indoor_seconds p.sensor_measured_at 300,
    sensor_is_fresh_iff p.clock_ready n.outdoor_seconds p.outdoor_measured_at 3600,
  )

  -- A filament reading whose measurement is at least five minutes old where its test reads the clock
  -- is not shown, and the screen does not say "Live", however recently the reading was received.
  pub draw_screen_stale :
      (p : Panel Float) (n : Now)
      → p.sensor_measured_at + 300 ≤ n.indoor_seconds
      → ((draw_screen p n).indoor ≡ none) × ((draw_screen p n).status ≢ Status.live)
  unfolding draw_screen
  draw_screen_stale p n h =
      ground (arith, sensor_is_fresh_iff p.clock_ready n.indoor_seconds p.sensor_measured_at 300)
