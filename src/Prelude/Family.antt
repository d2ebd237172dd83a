-- ===== src/Prelude/Family.antt =====
-- Families indexed by numbers, such as where each thread stands.
use Prim.Native.Nat.{ℕ}
use mathlib.Core.Logic.{◌≢◌, ite}
use native.Mathlib.Decide.{ℕ_discrete}

-- `f` with the value `a` at `i`
abbrev pub update {ℓ} : {A : Type ℓ} → (ℕ → A) → ℕ → A → ℕ → A
update f i a j = ite (ℕ_discrete i j) a (f j)

-- What holds of the new value, and of the others, holds of the updated family.
pub update_all {ℓ κ} :
    {A : Type ℓ} (P : A → Type κ) (f : ℕ → A) (i : ℕ) (a : A)
    → P a
    → ((j : ℕ) → i ≢ j → P (f j))
    → (j : ℕ) → P (update f i a j)
update_all P f i a new others j = elim (ℕ_discrete i j) as (λ d. P (ite d a (f j))) [
  | yes e ↦ new
  | no ne ↦ others j ne
]
