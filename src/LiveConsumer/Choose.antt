-- ===== src/LiveConsumer/Choose.antt =====
-- A choice by a test, for proofs on the branches of src/transport/p2p/shared-live-source.ts.
use eufy_sdk.Prelude.{◌≡◌, Bool, true, false, if◌then◌else◌, Bool-cases, inl, inr}

-- A test chooses what holds.
pub choose {ℓ} :
    {A : Type ℓ} (P : A → Type 0) (b : Bool) (x y : A)
    → (b ≡ true → P x)
    → (b ≡ false → P y)
    → P (if b then x else y)
choose P b x y then_x then_y = elim (Bool-cases b) [
  | inl e ↦ rw e (then_x e)
  | inr e ↦ rw e (then_y e)
]
