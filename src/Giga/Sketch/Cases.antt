-- ===== src/Giga/Sketch/Cases.antt =====
-- The choices of housepanel-giga.ino on a command's type and on the display's state, by cases.
use house_panel.Command.{CommandType}
use house_panel.Giga.Display.{DisplayState}

-- A property of both branches is one of the choice.
pub type_both {ℓ κ} :
    {A : Type ℓ} (P : A → Type κ) (t : CommandType) (x y : A)
    → P x
    → P y
    → P (elim t [
      | CommandType.type_ota_pause ↦ x
      | CommandType.type_ota_resume ↦ x
      | CommandType.type_unknown ↦ x
      | _ ↦ y
    ])
type_both P CommandType.type_ota_pause x y px py = px
type_both P CommandType.type_ota_resume x y px py = px
type_both P CommandType.type_unknown x y px py = px
type_both P _ x y px py = py

pub state_both {ℓ κ} :
    {A : Type ℓ} (P : A → Type κ) (t : DisplayState) (x y : A)
    → P x
    → P y
    → P (elim t [ DisplayState.daily_view ↦ x | DisplayState.doorbell_interrupt ↦ y ])
state_both P DisplayState.daily_view x y px py = px
state_both P DisplayState.doorbell_interrupt x y px py = py
