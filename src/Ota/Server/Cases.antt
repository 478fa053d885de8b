-- ===== src/Ota/Server/Cases.antt =====
-- The choices that ota_update.cpp makes on what the network returns, by cases.
use house_panel.Base.{ℕ, ◌≡◌, refl, Bytes}
use house_panel.Ota.Server.{AfterReply, Accepted, Received, Sent}

-- A property of every branch is one of the choice.
pub sent_both {ℓ κ} :
    {A : Type ℓ} (P : A → Type κ) (w : Sent) (x y : A) (z : ℕ → A)
    → P x
    → P y
    → ((n : ℕ) → w ≡ Sent.sent n → P (z n))
    → P (elim w [ Sent.would_block_send ↦ x | Sent.failed_send ↦ y | Sent.sent n ↦ z n ])
sent_both P Sent.would_block_send x y z px py pz = px
sent_both P Sent.failed_send x y z px py pz = py
sent_both P (Sent.sent n) x y z px py pz = pz n refl

pub after_both {ℓ κ} :
    {A : Type ℓ} (P : A → Type κ) (a : AfterReply) (x y z : A)
    → (a ≡ AfterReply.receive_after → P x)
    → P y
    → (a ≡ AfterReply.install_after → P z)
    → P (elim a [
      | AfterReply.receive_after ↦ x
      | AfterReply.close_after ↦ y
      | AfterReply.install_after ↦ z
    ])
after_both P AfterReply.receive_after x y z px py pz = px refl
after_both P AfterReply.close_after x y z px py pz = py
after_both P AfterReply.install_after x y z px py pz = pz refl

pub received_both {ℓ κ} :
    {A : Type ℓ} (P : A → Type κ) (w : Received) (x y : A) (z : Bytes → A)
    → P x
    → P y
    → ((b : Bytes) → w ≡ Received.received b → P (z b))
    → P (elim w [
      | Received.would_block_recv ↦ x
      | Received.failed_recv ↦ y
      | Received.received b ↦ z b
    ])
received_both P Received.would_block_recv x y z px py pz = px
received_both P Received.failed_recv x y z px py pz = py
received_both P (Received.received b) x y z px py pz = pz b refl

pub accepted_both {ℓ κ} :
    {A : Type ℓ} (P : A → Type κ) (w : Accepted) (x y z u : A)
    → P x
    → P y
    → P z
    → P u
    → P (elim w [
      | Accepted.accepted ↦ x
      | Accepted.would_block_accept ↦ y
      | Accepted.failed_accept ↦ z
      | Accepted.null_accept ↦ u
    ])
accepted_both P Accepted.accepted x y z u px py pz pu = px
accepted_both P Accepted.would_block_accept x y z u px py pz pu = py
accepted_both P Accepted.failed_accept x y z u px py pz pu = pz
accepted_both P Accepted.null_accept x y z u px py pz pu = pu
