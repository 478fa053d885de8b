-- ===== src/Giga/Display/Service.antt =====
-- `display_service` of display.cpp: which callbacks LVGL runs is its own choice, read from outside.
use house_panel.Base.{ℕ, ◌≡◌, refl, ◌∙◌, Option, none, some, List, [], ◌∷◌, ◌++◌, ltb, if_both}
use house_panel.Base.Words.{elapsed}
use house_panel.Json.{Floats}
use house_panel.Giga.Display.{Display, Drawing, touch_read}
use house_panel.Giga.Display.Draw.{unit_toggle, popup_close, status_click}

-- A callback with what it reads: the first contact, or the clock.
pub data Callback : Type 0 where
  reads : Option (ℕ × ℕ) → Callback
  toggles closes clicks : ℕ → Callback

module _ (f : Floats) where
  open f use {Float}

  unfoldable pub callback : Display Float → Callback → Display Float × List (Drawing Float)
  unfolding touch_read unit_toggle popup_close status_click
  callback d (reads contact) = ((touch_read d contact).0, [])
  callback d (toggles now) = unit_toggle f d now
  callback d (closes now) = popup_close f d now
  callback d (clicks now) = status_click f d now

  unfoldable pub display_service :
      Display Float → List Callback → Display Float × List (Drawing Float)
  unfolding callback
  display_service d [] = (d, [])
  display_service d (c ∷ cs) =
      let (d', ds) = callback d c in let (d'', ds') = display_service d' cs in (d'', ds ++ ds')

-- What no callback changes.
pub record Keeps {F : Type 0} (d e : Display F) : Type 0 where
  pub state_is : e.state ≡ d.state
  pub today_is : e.today ≡ d.today
  pub first_is : e.first_day ≡ d.first_day
  pub second_is : e.second_day ≡ d.second_day
  pub ip_is : e.ip ≡ d.ip

same-Keeps : {F : Type 0} (d : Display F) → Keeps d d
same-Keeps d = record {
  state_is = refl;
  today_is = refl;
  first_is = refl;
  second_is = refl;
  ip_is = refl;
}

module _ (f : Floats) where
  open f use {Float}

  -- What holds of the display that a callback returns.
  abbrev Kept : Display Float → Display Float × List (Drawing Float) → Type 0
  Kept d q = Keeps d q.0

  changed :
      (d e : Display Float)
      → e.state ≡ d.state
      → e.today ≡ d.today
      → e.first_day ≡ d.first_day
      → e.second_day ≡ d.second_day
      → e.ip ≡ d.ip
      → Keeps d e
  changed d e a b c g h = record {
    state_is = a;
    today_is = b;
    first_is = c;
    second_is = g;
    ip_is = h;
  }

  callback-Keeps : (d : Display Float) (c : Callback) → Kept d (callback f d c)
  unfolding callback touch_read unit_toggle popup_close status_click
  callback-Keeps d (reads none) = same-Keeps d
  callback-Keeps d (reads (some p)) = changed d _ refl refl refl refl refl
  callback-Keeps d (toggles now) =
      if_both (Kept d) (ltb (elapsed now d.toggled_at) 300) _ _ (same-Keeps d)
        (changed d _ refl refl refl refl refl)
  callback-Keeps d (closes now) =
      if_both (Kept d) (ltb (elapsed now d.closed_at) 300) _ _ (same-Keeps d)
        (changed d _ refl refl refl refl refl)
  callback-Keeps d (clicks now) =
      if_both (Kept d) (ltb (elapsed now d.clicked_at) 300) _ _ (same-Keeps d)
        (changed d _ refl refl refl refl refl)

  pub display_service-Keeps :
      (cs : List Callback) (d : Display Float) → Kept d (display_service f d cs)
  unfolding display_service
  display_service-Keeps [] d = same-Keeps d
  display_service-Keeps (c ∷ cs) d =
      let a = callback-Keeps d c in
      let b = display_service-Keeps cs (callback f d c).0 in
      changed d _ (b.state_is ∙ a.state_is) (b.today_is ∙ a.today_is) (b.first_is ∙ a.first_is)
        (b.second_is ∙ a.second_is) (b.ip_is ∙ a.ip_is)
