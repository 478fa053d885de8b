-- ===== src/Json/Toy.antt =====
-- Decimal fixed-point numbers in place of floats.
use house_panel.Base.{ℕ, ◌+◌, ◌*◌, ◌/◌, true, leb}
use house_panel.Json.{Floats}

abbrev pub tenth_floats : Floats
tenth_floats = record {
  Float = ℕ;
  tenths = λ n. n;
  add = λ x y. x + y;
  mul = λ x y. x * y / 10;
  div = λ x y. x * 10 / y;
  le = leb;
  is_finite = λ x. true;
}
