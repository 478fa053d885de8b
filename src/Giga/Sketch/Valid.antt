-- ===== src/Giga/Sketch/Valid.antt =====
-- The texts that housepanel-giga.ino and display.cpp keep, and the commands that change them.
pub mod Run
use house_panel.Base.{
  ℕ, ap, zero, suc, ◌*◌, ◌+◌, ◌-◌, ◌≤◌, ◌<◌, Bool, true, false, not, ◌&&◌, ◌||◌, List, [], ◌∷◌,
  arith, ltb, leb, ◌==◌, Bytes, length, take, length-append, length-take, if_both, if_cases, ltb→lt,
  ◌^◌, ◌%◌,
}
use house_panel.Base.Int.{ℤ}
use house_panel.Base.Words.{elapsed}
use house_panel.Json.{Floats, Json}
use house_panel.Command.{
  CommandType, CommandFrame, Payload, doorbell, ticker, weather, weather_day, cal_event, time_sync,
  sysmon, copy_text,
}
use house_panel.Giga.Display.{DisplayState, Display, Today, Forecast}
use house_panel.Giga.Display.Service.{Keeps}
use house_panel.Giga.Display.Draw.{
  render_weather_today, render_weather_day, render_doorbell_interrupt, dismiss_doorbell,
  display_update_status_detail,
}
use house_panel.Giga.Socket.{ws_loop, ws_send_memory}
use house_panel.Giga.Sketch.Cases.{type_both, state_both}
use house_panel.Giga.Sketch.{
  Sketch, Action, Pass, cal_text_size, calendar_line, append_line, start_list, add_event,
  handle_frame, dispatch,
}
use house_panel.Giga.Sketch.Loop.{
  doorbell_timer, is_shown, update_clock, update_status, indicators, retry, send_memory_step,
  listen, loop, new_sketch, setup,
}

-- The display's texts fit their arrays, each with its terminator.
pub record Fits {F : Type 0} (d : Display F) : Type 0 where
  pub today_fits : length d.today.conditions < 32
  pub first_label : length d.first_day.label < 4
  pub first_conditions : length d.first_day.conditions < 26
  pub second_label : length d.second_day.label < 4
  pub second_conditions : length d.second_day.conditions < 26
  pub ip_fits : length d.ip < 20

-- So does the calendar's text, and `_cal_text_len` is never before its end.
pub record IsValid {F : Type 0} (s : Sketch F) : Type 0 where
  pub text_fits : length s.cal_text < cal_text_size
  pub text_counted : length s.cal_text ≤ s.cal_text_len
  pub texts : Fits s.display

-- The state and the pop-up's flag are no texts.
pub shown_again :
    {F : Type 0} (d : Display F) (hidden : Bool) (state : DisplayState)
    → Fits d
    → Fits (record d { popup_hidden = hidden; state = state })
shown_again d hidden state t = record {
  today_fits = t.today_fits;
  first_label = t.first_label;
  first_conditions = t.first_conditions;
  second_label = t.second_label;
  second_conditions = t.second_conditions;
  ip_fits = t.ip_fits;
}

pub kept_again : {F : Type 0} (d e : Display F) → Keeps d e → Fits d → Fits e
kept_again {F} d e k t = record {
  today_fits = rw (ap (λ (w : Today F). length w.conditions) k.today_is) t.today_fits;
  first_label = rw (ap (λ (w : Forecast F). length w.label) k.first_is) t.first_label;
  first_conditions =
      rw (ap (λ (w : Forecast F). length w.conditions) k.first_is) t.first_conditions;
  second_label = rw (ap (λ (w : Forecast F). length w.label) k.second_is) t.second_label;
  second_conditions =
      rw (ap (λ (w : Forecast F). length w.conditions) k.second_is) t.second_conditions;
  ip_fits = rw k.ip_is t.ip_fits;
}

pub copy_text-length : (size : ℕ) (text : Bytes) → 0 < size → length (copy_text size text) < size
copy_text-length size text h = omega (arith, h, length-take (size - 1) text)

module _ {F : Type 0} where
  append_line-IsValid : (s : Sketch F) (line : Bytes) → IsValid s → IsValid (append_line s line)
  unfolding append_line
  append_line-IsValid s line v =
      if_cases IsValid (ltb s.cal_text_len (cal_text_size - 1)) _ _
        (λ e.
          let less = ltb→lt s.cal_text_len (cal_text_size - 1) e in
          let room = cal_text_size - 1 - s.cal_text_len in
          record {
            text_fits = omega (
              arith,
              less,
              v.text_counted,
              length-append s.cal_text (take room line),
              length-take room line,
            );
            text_counted = omega (
              arith,
              less,
              v.text_counted,
              length-append s.cal_text (take room line),
              length-take room line,
            );
            texts = v.texts;
          })
        (λ e. v)

  start_list-IsValid : (s : Sketch F) (idx : ℤ) → IsValid s → IsValid (start_list s idx)
  unfolding start_list
  start_list-IsValid s (ℤ.pos zero) v = record {
    text_fits = omega arith;
    text_counted = omega arith;
    texts = v.texts;
  }
  start_list-IsValid s (ℤ.pos (suc n)) v = v
  start_list-IsValid s (ℤ.negsuc n) v = v

module _ (f : Floats) where
  open f use {Float}

  -- What holds of the state that a step returns.
  abbrev pub Leaves : Sketch Float × List (Action Float) → Type 0
  Leaves q = IsValid q.0

  today-Fits :
      (d : Display Float) (temp high low : Float) (conditions : Bytes)
      → Fits d
      → Fits (render_weather_today f d temp conditions high low).0
  unfolding render_weather_today
  today-Fits d temp high low conditions t = record {
    today_fits = copy_text-length 32 conditions (omega arith);
    first_label = t.first_label;
    first_conditions = t.first_conditions;
    second_label = t.second_label;
    second_conditions = t.second_conditions;
    ip_fits = t.ip_fits;
  }

  day-Fits :
      (d : Display Float) (idx : ℤ) (label : Bytes) (high low : Float) (conditions : Bytes)
      → Fits d
      → Fits (render_weather_day f d idx label high low conditions).0
  unfolding render_weather_day
  day-Fits d (ℤ.negsuc n) label high low conditions t = t
  day-Fits d (ℤ.pos n) label high low conditions t =
      let l = copy_text-length 4 label (omega arith) in
      let o = copy_text-length 26 conditions (omega arith) in
      if_both (λ (q : Display Float × _). Fits q.0) (ltb 1 n) _ _ t
        (if_both Fits (n == 0) _ _
          (record {
            today_fits = t.today_fits;
            first_label = l;
            first_conditions = o;
            second_label = t.second_label;
            second_conditions = t.second_conditions;
            ip_fits = t.ip_fits;
          })
          (record {
            today_fits = t.today_fits;
            first_label = t.first_label;
            first_conditions = t.first_conditions;
            second_label = l;
            second_conditions = o;
            ip_fits = t.ip_fits;
          }))

  add_event-IsValid :
      (s : Sketch Float) (idx : ℤ) (summary time : Bytes) (all_day : Bool)
      → IsValid s
      → IsValid (add_event s idx summary time all_day)
  unfolding add_event
  add_event-IsValid s idx summary time all_day v =
      append_line-IsValid (start_list s idx) (calendar_line summary time all_day)
        (start_list-IsValid s idx v)

  pub payload-IsValid :
      (p : Payload Float) (s : Sketch Float) (type : CommandType) (at : ℕ)
      → IsValid s
      → Leaves (handle_frame f s (record { type = type; payload = p }) at)
  unfolding handle_frame render_doorbell_interrupt
  payload-IsValid (doorbell n) s type at v = record {
    text_fits = v.text_fits;
    text_counted = v.text_counted;
    texts = shown_again s.display true DisplayState.doorbell_interrupt v.texts;
  }
  payload-IsValid (ticker text) s type at v = v
  payload-IsValid (weather temp conditions high low) s type at v = record {
    text_fits = v.text_fits;
    text_counted = v.text_counted;
    texts = today-Fits s.display temp high low conditions v.texts;
  }
  payload-IsValid (weather_day idx label high low conditions) s type at v = record {
    text_fits = v.text_fits;
    text_counted = v.text_counted;
    texts = day-Fits s.display idx label high low conditions v.texts;
  }
  payload-IsValid (cal_event idx summary time all_day) s type at v =
      let w = add_event-IsValid s idx summary time all_day v in
      record { text_fits = w.text_fits; text_counted = w.text_counted; texts = w.texts }
  payload-IsValid (time_sync epoch offset) s type at v =
      if_both Leaves (epoch == 0) _ _ v
        (record { text_fits = v.text_fits; text_counted = v.text_counted; texts = v.texts })
  payload-IsValid (sysmon temp humidity) s type at v = record {
    text_fits = v.text_fits;
    text_counted = v.text_counted;
    texts = v.texts;
  }
