-- ===== src/Filament/Freshness.antt =====
-- sensor_freshness.h. Times are uint64_t seconds.
use house_panel.Base.{ℕ, ◌+◌, ◌-◌, ◌≤◌, ◌<◌, ◌≡◌, ◌↔◌, Bool, true, ◌&&◌, arith, ltb, leb}

-- The subtraction is reached only where `measured_at <= now`.
unfoldable pub sensor_is_fresh : Bool → ℕ → ℕ → ℕ → Bool
sensor_is_fresh clock_ready now measured_at max_age =
    clock_ready && ltb 0 measured_at && leb measured_at now && ltb (now - measured_at) max_age

-- A reading is fresh exactly if the clock is set and the time lies in `[measured_at, measured_at +
-- max_age)`, where `measured_at` is not 0.
pub sensor_is_fresh_iff :
    (clock_ready : Bool) (now measured_at max_age : ℕ)
    → (sensor_is_fresh clock_ready now measured_at max_age ≡ true) ↔ (
        (clock_ready ≡ true)
        × (0 < measured_at)
        × (measured_at ≤ now)
        × (now < measured_at + max_age))
unfolding sensor_is_fresh
sensor_is_fresh_iff clock_ready now measured_at max_age = ground arith
