-- ===== src/Json.antt =====
-- ArduinoJson and float arithmetic, which the firmware calls and does not implement.
pub mod Toy
use house_panel.Base.{ℕ, Bool, Option, none, some, Bytes}
use house_panel.Base.Int.{ℤ}

pub record Floats : Type 1 where
  pub Float : Type 0
  -- a literal, in tenths
  pub tenths : ℕ → Float
  pub add : Float → Float → Float
  pub mul : Float → Float → Float
  pub div : Float → Float → Float
  pub le : Float → Float → Bool
  pub is_finite : Float → Bool

-- A document and the member `doc[key]` read as a type: `none` where `is<T>()` is false. A text ends at
-- its terminator.
pub record Json (f : Floats) : Type 1 where
  pub Doc : Type 0
  pub deserialize : Bytes → Option Doc
  pub text : Doc → Bytes → Option Bytes
  pub int : Doc → Bytes → Option ℤ
  pub ulong : Doc → Bytes → Option ℕ
  pub bool : Doc → Bytes → Option Bool
  pub float : Doc → Bytes → Option f.Float

-- `doc[key] | fallback`
abbrev pub or_else {ℓ} : {A : Type ℓ} → Option A → A → A
or_else none fallback = fallback
or_else (some a) fallback = a
