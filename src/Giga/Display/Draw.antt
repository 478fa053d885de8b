-- ===== src/Giga/Display/Draw.antt =====
-- The functions of display.cpp that draw, each with the new state where it changes it.
use house_panel.Base.{
  ℕ, ◌+◌, ◌/◌, Bool, true, false, not, List, [], ◌∷◌, ◌++◌, ltb, ◌==◌, if◌then◌else◌, Bytes, length,
  codes,
}
use house_panel.Base.Int.{ℤ}
use house_panel.Base.Words.{elapsed}
use house_panel.Json.{Floats}
use house_panel.Command.{copy_text}
use house_panel.Giga.Display.{
  Age, Display, DisplayState, Drawing, Forecast, conditions_color, to_disp, unit_str, no_data,
  seconds, minutes, current_label, high_label, low_label, day_label, conditions_label, border_color,
  icon_color, label_number, label_text, calendar_text, sysmon_numbers, doorbell_seconds, popup_text,
  clock_text, indicator_colors, load_daily, load_doorbell, hide_popup, show_popup,
}

module _ (f : Floats) where
  open f use {Float}

  unfoldable pub render_today : Display Float → List (Drawing Float)
  unfolding to_disp unit_str conditions_color
  render_today d =
      if not d.today.valid
      then []
      else (let col = conditions_color d.today.conditions in
          border_color 0 col
          ∷ icon_color 0 col
          ∷ label_number current_label [] (to_disp f d d.today.temp_c) (unit_str f d)
          ∷ label_number (high_label 0) (codes "H: ") (to_disp f d d.today.high_c) (unit_str f d)
          ∷ label_number (low_label 0) (codes "L: ") (to_disp f d d.today.low_c) (unit_str f d)
          ∷ [])

  -- The card `c`, 1 or 2, of the day `w`.
  unfoldable pub render_day : Display Float → ℕ → Forecast Float → List (Drawing Float)
  unfolding to_disp unit_str conditions_color
  render_day d c w =
      if not w.valid
      then []
      else (let col = conditions_color w.conditions in
          border_color c col
          ∷ icon_color c col
          ∷ label_text (day_label c) (if length w.label == 0 then codes "---" else w.label)
          ∷ label_number (high_label c) (codes "H: ") (to_disp f d w.high_c) (unit_str f d)
          ∷ label_number (low_label c) (codes "L: ") (to_disp f d w.low_c) (unit_str f d)
          ∷ label_text (conditions_label c) w.conditions
          ∷ [])

  unfoldable pub render_forecast : Display Float → ℕ → List (Drawing Float)
  unfolding render_day
  render_forecast d c =
      if c == 1
      then render_day d 1 d.first_day
      else if c == 2
      then render_day d 2 d.second_day
      else []

  unfoldable pub unit_toggle : Display Float → ℕ → Display Float × List (Drawing Float)
  unfolding render_today render_forecast
  unit_toggle d now =
      if ltb (elapsed now d.toggled_at) 300
      then (d, [])
      else (let d' : Display Float = record d {
        toggled_at = now;
        show_fahrenheit = not d.show_fahrenheit;
      } in
          (d', render_today d' ++ (render_forecast d' 1 ++ render_forecast d' 2)))

  abbrev pub age_of : ℕ → Age
  age_of n = if n == 0 then no_data else if ltb n 60 then seconds n else minutes (n / 60)

  unfoldable pub refresh_popup_content : Display Float → List (Drawing Float)
  refresh_popup_content d =
      popup_text d.wifi_ok (if length d.ip == 0 then codes "--" else d.ip) d.ws_ok
        (age_of d.data_age)
      ∷ []

  unfoldable pub popup_close : Display Float → ℕ → Display Float × List (Drawing Float)
  popup_close d now =
      if ltb (elapsed now d.closed_at) 300
      then (d, [])
      else (record d { closed_at = now; popup_hidden = true }, hide_popup ∷ [])

  unfoldable pub status_click : Display Float → ℕ → Display Float × List (Drawing Float)
  unfolding refresh_popup_content
  status_click d now = if ltb (elapsed now d.clicked_at) 300 then (d, []) else (
    record d { clicked_at = now; popup_hidden = false },
    refresh_popup_content d ++ (show_popup ∷ []),
  )

  unfoldable pub render_daily_view : Display Float → Display Float × List (Drawing Float)
  render_daily_view d = (record d { state = DisplayState.daily_view }, load_daily ∷ [])

  unfoldable pub render_weather_today :
      Display Float → Float → Bytes → Float → Float → Display Float × List (Drawing Float)
  unfolding render_today
  render_weather_today d temp conditions high low =
      let d' : Display Float = record d {
        today = record {
          temp_c = temp;
          high_c = high;
          low_c = low;
          conditions = copy_text 32 conditions;
          valid = true;
        };
      } in
      (d', render_today d')

  unfoldable pub render_weather_day :
      Display Float → ℤ → Bytes → Float → Float → Bytes → Display Float × List (Drawing Float)
  unfolding render_forecast
  render_weather_day d idx label high low conditions =
      let w : Forecast Float = record {
        high_c = high;
        low_c = low;
        label = copy_text 4 label;
        conditions = copy_text 26 conditions;
        valid = true;
      } in
      elim idx [
        | ℤ.negsuc n ↦ (d, [])
        | ℤ.pos n ↦
            if ltb 1 n
            then (d, [])
            else (let d' : Display Float =
                  if n == 0 then record d { first_day = w } else record d { second_day = w } in
                (d', render_forecast d' (n + 1)))
      ]

  unfoldable pub render_doorbell_interrupt :
      Display Float → ℤ → Display Float × List (Drawing Float)
  render_doorbell_interrupt d timeout_seconds = (
    record d { popup_hidden = true; state = DisplayState.doorbell_interrupt },
    hide_popup ∷ doorbell_seconds timeout_seconds ∷ load_doorbell ∷ [],
  )

  unfoldable pub dismiss_doorbell : Display Float → Display Float × List (Drawing Float)
  dismiss_doorbell d = (record d { state = DisplayState.daily_view }, load_daily ∷ [])

  abbrev pub color_of : Bool → ℕ → ℕ
  color_of ok bad = if ok then 0x00CC44 else bad

  unfoldable pub display_update_indicators : Bool → Bool → Bool → List (Drawing Float)
  display_update_indicators wifi_ok ws_ok data_ok =
      indicator_colors (color_of wifi_ok 0xFF3333) (color_of ws_ok 0xFF3333)
        (color_of data_ok 0xFFAA00)
      ∷ []

  unfoldable pub display_update_status_detail :
      Display Float → Bool → Bytes → Bool → Bool → ℕ → Display Float × List (Drawing Float)
  unfolding refresh_popup_content
  display_update_status_detail d wifi_ok ip ws_ok data_ok age =
      let d' : Display Float = record d {
        wifi_ok = wifi_ok;
        ws_ok = ws_ok;
        data_ok = data_ok;
        data_age = age;
        ip = copy_text 20 ip;
      } in
      (d', if d.popup_hidden then [] else refresh_popup_content d')

  abbrev pub render_calendar_section : Bytes → List (Drawing Float)
  render_calendar_section text = calendar_text text ∷ []

  abbrev pub display_update_sysmon : Float → Float → List (Drawing Float)
  display_update_sysmon temp humidity = sysmon_numbers temp humidity ∷ []

  abbrev pub display_update_clock : ℕ → ℕ → List (Drawing Float)
  display_update_clock h m = clock_text h m ∷ []
