-- ===== src/Giga/Display.antt =====
-- display.cpp: what the panel remembers of what it shows. The widgets that display_init makes exist from
-- the start; what a function does to them is a list of drawings.
pub mod Draw
pub mod Service
use house_panel.Base.{
  ℕ, ◌+◌, ◌/◌, Bool, true, false, not, ◌&&◌, ◌||◌, Option, none, some, List, [], ◌∷◌, ◌++◌, ltb,
  ◌==◌, if◌then◌else◌, Bytes, length, codes,
}
use house_panel.Base.Int.{ℤ}
use house_panel.Base.Words.{elapsed}
use house_panel.Json.{Floats}
use house_panel.Command.{copy_text}

pub data DisplayState : Type 0 where
  daily_view doorbell_interrupt : DisplayState

pub record Today (F : Type 0) : Type 0 where
  pub temp_c : F
  pub high_c : F
  pub low_c : F
  pub conditions : Bytes
  pub valid : Bool

pub record Forecast (F : Type 0) : Type 0 where
  pub high_c : F
  pub low_c : F
  pub label : Bytes
  pub conditions : Bytes
  pub valid : Bool

-- The variables, with the pop-up's hidden flag and the `last_ms` and `last_point` of the callbacks.
-- `forecast` has the two elements of `_forecast_wx` that are ever used.
pub record Display (F : Type 0) : Type 0 where
  pub state : DisplayState
  pub show_fahrenheit : Bool
  pub today : Today F
  pub first_day : Forecast F
  pub second_day : Forecast F
  pub wifi_ok : Bool
  pub ws_ok : Bool
  pub data_ok : Bool
  pub ip : Bytes
  pub data_age : ℕ
  pub popup_hidden : Bool
  pub toggled_at : ℕ
  pub closed_at : ℕ
  pub clicked_at : ℕ
  pub point : ℕ × ℕ

-- `data_str` of refresh_popup_content.
pub data Age : Type 0 where
  no_data : Age
  seconds minutes : ℕ → Age

pub data Label : Type 0 where
  current_label : Label
  high_label low_label day_label conditions_label : ℕ → Label

pub data Drawing (F : Type 0) : Type 0 where
  border_color icon_color : ℕ → ℕ → Drawing F
  -- a text, a number without decimals, and a text
  label_number : Label → Bytes → F → Bytes → Drawing F
  label_text : Label → Bytes → Drawing F
  calendar_text : Bytes → Drawing F
  sysmon_numbers : F → F → Drawing F
  doorbell_seconds : ℤ → Drawing F
  popup_text : Bool → Bytes → Bool → Age → Drawing F
  clock_text : ℕ → ℕ → Drawing F
  indicator_colors : ℕ → ℕ → ℕ → Drawing F
  load_daily load_doorbell hide_popup show_popup : Drawing F

-- `strstr(text, word)` is not null.
abbrev pub starts_with : Bytes → Bytes → Bool
starts_with [] text = true
starts_with (w ∷ word) [] = false
starts_with (w ∷ word) (t ∷ text) = w == t && starts_with word text

abbrev pub has_word : Bytes → Bytes → Bool
has_word word [] = starts_with word []
has_word word (t ∷ text) = starts_with word (t ∷ text) || has_word word text

unfoldable pub conditions_color : Bytes → ℕ
conditions_color cond =
    if length cond == 0
    then 0xFF8C00
    else if has_word (codes "clear") cond || has_word (codes "sunny") cond
    then 0xFFD700
    else if has_word (codes "few cloud") cond || has_word (codes "scatter") cond
    then 0x87CEEB
    else if has_word (codes "cloud") cond || has_word (codes "overcast") cond
    then 0x888888
    else if has_word (codes "rain") cond
        || has_word (codes "drizzle") cond
        || has_word (codes "shower") cond
    then 0x4169E1
    else if has_word (codes "thunder") cond || has_word (codes "storm") cond
    then 0x9400D3
    else if has_word (codes "snow") cond
        || has_word (codes "sleet") cond
        || has_word (codes "ice") cond
    then 0xCCEEFF
    else if has_word (codes "mist") cond
        || has_word (codes "fog") cond
        || has_word (codes "haze") cond
    then 0xA9A9A9
    else 0xFF8C00

unfoldable pub touch_read : {F : Type 0} → Display F → Option (ℕ × ℕ) → Display F × Bool
touch_read d none = (d, false)
touch_read d (some p) = (record d { point = p }, true)

module _ (f : Floats) where
  open f use {Float, tenths, add, mul, div}

  -- The initialisers.
  unfoldable pub new_display : Display Float
  new_display =
      let z = tenths 0 in
      let day : Forecast Float = record {
        high_c = z;
        low_c = z;
        label = [];
        conditions = [];
        valid = false;
      } in
      record {
        state = DisplayState.daily_view;
        show_fahrenheit = false;
        today = record { temp_c = z; high_c = z; low_c = z; conditions = []; valid = false };
        first_day = day;
        second_day = day;
        wifi_ok = false;
        ws_ok = false;
        data_ok = false;
        ip = [];
        data_age = 0;
        popup_hidden = true;
        toggled_at = 0;
        closed_at = 0;
        clicked_at = 0;
        point = (0, 0);
      }

  unfoldable pub to_disp : Display Float → Float → Float
  to_disp d c =
      if d.show_fahrenheit then add (div (mul c (tenths 90)) (tenths 50)) (tenths 320) else c

  unfoldable pub unit_str : Display Float → Bytes
  unit_str d = if d.show_fahrenheit then 194 ∷ 176 ∷ b'F' ∷ [] else 194 ∷ 176 ∷ []
