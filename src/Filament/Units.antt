-- ===== src/Filament/Units.antt =====
-- temperature_units.h: the unit of temperature, toggled by taps in a band of the screen.
use house_panel.Base.{
  ℕ, ◌+◌, ◌%◌, ◌<◌, ◌≡◌, refl, Bool, true, false, not, ◌&&◌, ◌||◌, List, [], ◌∷◌, arith, ◌==◌,
  if◌then◌else◌,
}
use house_panel.Base.Int.{ℤ, pos, ◌-ℤ◌, ◌≤ℤ◌, ltb_ℤ}
use house_panel.Json.{Floats}

pub record TemperatureUnits : Type 0 where
  pub fahrenheit : Bool
  pub pressed : Bool

abbrev pub no_units : TemperatureUnits
no_units = record { fahrenheit = false; pressed = false }

module _ (f : Floats) where
  open f use {Float, tenths, add, mul}

  unfoldable pub unit_value : TemperatureUnits → Float → Float
  unit_value u celsius =
      if u.fahrenheit then add (mul celsius (tenths 18)) (tenths 320) else celsius

unfoldable pub symbol : TemperatureUnits → ℕ
symbol u = if u.fahrenheit then b'F' else b'C'

-- `x < 0 || x >= 800 || y < 175 || y >= 425`
abbrev pub outside : ℤ → ℤ → Bool
outside x y =
    ltb_ℤ x (pos 0) || not (ltb_ℤ x (pos 800)) || ltb_ℤ y (pos 175) || not (ltb_ℤ y (pos 425))

unfoldable pub report : TemperatureUnits → Bool → ℤ → ℤ → Bool × TemperatureUnits
report u contact x y =
    if not contact
    then (false, record u { pressed = false })
    else if u.pressed
    then (false, u)
    else if outside x y
    then (false, record u { pressed = true })
    else (true, record u { pressed = true; fahrenheit = not u.fahrenheit })

-- raw_x and raw_y are uint16_t.
unfoldable pub touch_landscape : ℕ → ℕ → Bool → ℤ × ℤ
touch_landscape raw_x raw_y portrait =
    if portrait then (pos raw_y, pos 479 -ℤ pos raw_x) else (pos raw_x, pos raw_y)

-- One report of the controller: a contact and its place.
pub record Touch : Type 0 where
  pub contact : Bool
  pub x : ℤ
  pub y : ℤ

pub run_reports : TemperatureUnits → List Touch → TemperatureUnits
run_reports u [] = u
run_reports u (t ∷ ts) = run_reports (report u t.contact t.x t.y).1 ts

-- A tap is a contact after none, inside the band. `down` is whether the finger was down before.
pub taps : Bool → List Touch → ℕ
taps down [] = 0
taps down (t ∷ ts) =
    (if t.contact && not down && not (outside t.x t.y) then 1 else 0) + taps t.contact ts

-- After any touch reports the unit is decided by the parity of the taps, a tap being a contact in
-- the band after none: a finger that rests or moves on the glass toggles nothing, nor does one that
-- lands outside the band.
pub run_reports-taps :
    (u : TemperatureUnits) (ts : List Touch)
    → (run_reports u ts).fahrenheit
      ≡ (if taps u.pressed ts % 2 == 0 then u.fahrenheit else not u.fahrenheit)
unfolding run_reports taps report
run_reports-taps u [] = refl
run_reports-taps u (t ∷ ts) = ground (arith, run_reports-taps (report u t.contact t.x t.y).1 ts)

-- A raw point in the range of its controller, in either orientation, falls on the 800 x 480 screen.
pub touch_landscape_on_screen :
    (raw_x raw_y : ℕ) (portrait : Bool)
    → raw_x < (if portrait then 480 else 800)
    → raw_y < (if portrait then 800 else 480)
    → let (x, y) = touch_landscape raw_x raw_y portrait in
      (pos 0 ≤ℤ x) × (x ≤ℤ pos 799) × (pos 0 ≤ℤ y) × (y ≤ℤ pos 479)
unfolding touch_landscape ◌-ℤ◌
touch_landscape_on_screen raw_x raw_y true h k = ground arith
touch_landscape_on_screen raw_x raw_y false h k = ground arith
