-- ===== src/Common/Results.antt =====
-- `Result<T, E>`, and code that may panic.
use Prim.Native.Nat.{ℕ}
use mathlib.Core.Path.{◌≡◌, refl}
use mathlib.Core.Logic.{◌⊎◌, inl, inr}

-- `Result<T, E>`.
pub data Result {ℓ κ} (A : Type ℓ) (E : Type κ) : Type (ℓ ⊔ κ) where
  ok : A → Result A E
  err : E → Result A E

-- How a process ends itself, with its completion code.
pub data ExitCall : Type 0 where
  terminate restart : ℕ → ExitCall

-- A call that returns, that panics, or in which the process exits.
pub data Outcome {ℓ} (A : Type ℓ) : Type ℓ where
  returns : A → Outcome A
  panics : Outcome A
  exits : ExitCall → Outcome A

pub Result-cases {ℓ κ} :
    {A : Type ℓ} {E : Type κ} (r : Result A E) → ((a : A) × (r ≡ ok a)) ⊎ ((e : E) × (r ≡ err e))
Result-cases (ok a) = inl (a, refl)
Result-cases (err e) = inr (e, refl)

-- `Result::map`
abbrev pub map_ok {ℓ κ μ} :
    {A : Type ℓ} {B : Type κ} {E : Type μ} → (A → B) → Result A E → Result B E
map_ok f (ok a) = ok (f a)
map_ok f (err e) = err e

-- `Result::unwrap_or`
abbrev pub unwrap_or {ℓ κ} : {A : Type ℓ} {E : Type κ} → Result A E → A → A
unwrap_or (ok a) default = a
unwrap_or (err _) default = default
