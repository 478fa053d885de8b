-- ===== src/Giga/Sketch/Unit.antt =====
-- The number on the label of today's temperature, in housepanel-giga.ino and display.cpp: which steps draw it.
use mathlib.Core.Path.{ap₂, subst}
use house_panel.Base.{
  ℕ, ◌≡◌, refl, ◌∙◌, ap, sym, inl, inr, Bool, true, false, not, Option, none, some, List, [], ◌∷◌,
  ◌++◌, ltb, ◌==◌, Bytes, if_both, Bool-cases,
}
use house_panel.Base.Words.{elapsed}
use house_panel.Json.{Floats}
use house_panel.Giga.Display.{
  Display, Today, Forecast, Label, Drawing, label_number, to_disp, unit_str,
}
use house_panel.Giga.Display.Draw.{
  render_today, render_day, render_forecast, unit_toggle, popup_close, status_click,
}
use house_panel.Giga.Display.Service.{Callback, callback, display_service}
use house_panel.Giga.Sketch.{Action, draw, draws}

module _ {F : Type 0} where
  -- The number and the unit that the label holds after a drawing, after drawings, and after actions.
  abbrev pub after_draw : Option (F × Bytes) → Drawing F → Option (F × Bytes)
  after_draw o (label_number Label.current_label prefix x unit) = some (x, unit)
  after_draw o _ = o

  unfoldable pub last_drawn : Option (F × Bytes) → List (Drawing F) → Option (F × Bytes)
  last_drawn o [] = o
  last_drawn o (d ∷ ds) = last_drawn (after_draw o d) ds

  abbrev pub after_action : Option (F × Bytes) → Action F → Option (F × Bytes)
  after_action o (draw d) = after_draw o d
  after_action o _ = o

  unfoldable pub last_shown : Option (F × Bytes) → List (Action F) → Option (F × Bytes)
  last_shown o [] = o
  last_shown o (e ∷ es) = last_shown (after_action o e) es

  pub last_shown-append :
      (es fs : List (Action F)) (o : Option (F × Bytes))
      → last_shown o (es ++ fs) ≡ last_shown (last_shown o es) fs
  unfolding last_shown
  last_shown-append [] fs o = refl
  last_shown-append (e ∷ es) fs o = last_shown-append es fs (after_action o e)

  last_drawn-append :
      (ds es : List (Drawing F)) (o : Option (F × Bytes))
      → last_drawn o (ds ++ es) ≡ last_drawn (last_drawn o ds) es
  unfolding last_drawn
  last_drawn-append [] es o = refl
  last_drawn-append (d ∷ ds) es o = last_drawn-append ds es (after_draw o d)

  pub last_shown-draws :
      (ds : List (Drawing F)) (o : Option (F × Bytes)) → last_shown o (draws ds) ≡ last_drawn o ds
  unfolding last_shown last_drawn
  last_shown-draws [] o = refl
  last_shown-draws (d ∷ ds) o = last_shown-draws ds (after_draw o d)

module _ (f : Floats) where
  open f use {Float, tenths, add, mul, div}

  -- A temperature and the unit that follows it, in the chosen unit.
  abbrev pub in_unit : Bool → Float → Float × Bytes
  in_unit true c = (add (div (mul c (tenths 90)) (tenths 50)) (tenths 320), 194 ∷ 176 ∷ b'F' ∷ [])
  in_unit false c = (c, 194 ∷ 176 ∷ [])

  -- The label holds today's temperature in the chosen unit, once there is one.
  pub record Follows (d : Display Float) (o : Option (Float × Bytes)) : Type 0 where
    pub shown : d.today.valid ≡ true → o ≡ some (in_unit d.show_fahrenheit d.today.temp_c)

  in_unit-is :
      (d : Display Float) (c : Float) → (to_disp f d c, unit_str f d) ≡ in_unit d.show_fahrenheit c
  unfolding to_disp unit_str
  in_unit-is d c = elim (Bool-cases d.show_fahrenheit) [ inl e ↦ rw e refl | inr e ↦ rw e refl ]

  -- Drawings with the display that they leave.
  abbrev pub Draws : Display Float × List (Drawing Float) → Option (Float × Bytes) → Type 0
  Draws q o = Follows q.0 (last_drawn o q.1)

  day-last :
      (d : Display Float) (c : ℕ) (w : Forecast Float) (o : Option (Float × Bytes))
      → last_drawn o (render_day f d c w) ≡ o
  unfolding render_day last_drawn
  day-last d c w o = if_both (λ ds. last_drawn o ds ≡ o) (not w.valid) _ _ refl refl

  pub forecast-last :
      (d : Display Float) (c : ℕ) (o : Option (Float × Bytes))
      → last_drawn o (render_forecast f d c) ≡ o
  unfolding render_forecast last_drawn
  forecast-last d c o =
      if_both (λ ds. last_drawn o ds ≡ o) (c == 1) _ _ (day-last d 1 d.first_day o)
        (if_both (λ ds. last_drawn o ds ≡ o) (c == 2) _ _ (day-last d 2 d.second_day o) refl)

  pub today-Follows :
      (d : Display Float) (o : Option (Float × Bytes)) → Follows d (last_drawn o (render_today f d))
  unfolding render_today last_drawn
  today-Follows d o = record { shown = λ v. rw v (ap some (in_unit-is d d.today.temp_c)) }

  -- The unit and today's temperature as before, and nothing on the label.
  pub other-Follows :
      (d e : Display Float) (o : Option (Float × Bytes))
      → e.today ≡ d.today
      → e.show_fahrenheit ≡ d.show_fahrenheit
      → Follows d o
      → Follows e o
  other-Follows d e o t u h = record {
    shown = λ v.
        h.shown (sym (ap (λ (w : Today Float). w.valid) t) ∙ v)
        ∙ ap₂ (λ b (w : Today Float). some (in_unit b w.temp_c)) (sym u) (sym t);
  }

  toggle-Follows :
      (d : Display Float) (now : ℕ) (o : Option (Float × Bytes))
      → Follows d o
      → Draws (unit_toggle f d now) o
  unfolding unit_toggle last_drawn
  toggle-Follows d now o h =
      let e : Display Float = record d {
        toggled_at = now;
        show_fahrenheit = not d.show_fahrenheit;
      } in
      let a = render_today f e in
      let same : last_drawn o (a ++ (render_forecast f e 1 ++ render_forecast f e 2))
          ≡ last_drawn o a =
        last_drawn-append a (render_forecast f e 1 ++ render_forecast f e 2) o
        ∙ last_drawn-append (render_forecast f e 1) (render_forecast f e 2) (last_drawn o a)
        ∙ forecast-last e 2 _
        ∙ forecast-last e 1 _ in
      if_both (λ q. Draws q o) (ltb (elapsed now d.toggled_at) 300) _ _ h
        (subst (Follows e) (sym same) (today-Follows e o))

  callback-Follows :
      (d : Display Float) (c : Callback) (o : Option (Float × Bytes))
      → Follows d o
      → Draws (callback f d c) o
  unfolding callback unit_toggle popup_close status_click last_drawn
  callback-Follows d (Callback.reads none) o h = h
  callback-Follows d (Callback.reads (some p)) o h = other-Follows d _ o refl refl h
  callback-Follows d (Callback.toggles now) o h = toggle-Follows d now o h
  callback-Follows d (Callback.closes now) o h =
      if_both (λ q. Draws q o) (ltb (elapsed now d.closed_at) 300) _ _ h
        (other-Follows d _ o refl refl h)
  callback-Follows d (Callback.clicks now) o h =
      if_both (λ q. Draws q o) (ltb (elapsed now d.clicked_at) 300) _ _ h
        (other-Follows d _ o refl refl h)

  pub display_service-Follows :
      (cs : List Callback) (d : Display Float) (o : Option (Float × Bytes))
      → Follows d o
      → Draws (display_service f d cs) o
  unfolding display_service last_drawn
  display_service-Follows [] d o h = h
  display_service-Follows (c ∷ cs) d o h =
      let (e, ds) = callback f d c in
      let rest = display_service-Follows cs e (last_drawn o ds) (callback-Follows d c o h) in
      subst (Follows (display_service f e cs).0)
        (sym (last_drawn-append ds (display_service f e cs).1 o)) rest
