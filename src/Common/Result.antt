-- ===== src/Common/Result.antt =====
-- What a piece of kernel code does: it returns, or it faults (a read through NULL, or `BUG_ON`).
use mathlib.Core.Path.{◌≡◌, refl}
use mathlib.Core.Logic.{◌⊎◌, inl, inr}

pub data Outcome {ℓ} (A : Type ℓ) : Type ℓ where
  done : A → Outcome A
  oops : Outcome A

infixl 5 ◌>>=◌
abbrev pub ◌>>=◌ {ℓ κ} : {A : Type ℓ} {B : Type κ} → Outcome A → (A → Outcome B) → Outcome B
done a >>= f = f a
oops >>= f = oops

pub Outcome-cases {ℓ} : {A : Type ℓ} (o : Outcome A) → (o ≡ oops) ⊎ ((a : A) × (o ≡ done a))
Outcome-cases (done a) = inr (a, refl)
Outcome-cases oops = inl refl
