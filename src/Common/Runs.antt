-- ===== src/Common/Runs.antt =====
-- Code that reads and changes a state, and may panic or exit.
use mathlib.Core.Path.{◌≡◌, ap, refl}
use libtock_rs.Common.Results.{Outcome, returns, panics, exits}

abbrev pub Run : Type 0 → Type 0 → Type 0
Run W A = W → Outcome (A × W)

infixl 5 ◌>>=◌ ◌>>◌
abbrev pub ◌>>=◌ : {W A B : Type 0} → Run W A → (A → Run W B) → Run W B
◌>>=◌ m f w = elim (m w) [ panics ↦ panics | exits c ↦ exits c | returns (a, w') ↦ f a w' ]

abbrev pub ◌>>◌ : {W B : Type 0} → Run W (Unit {0}) → Run W B → Run W B
m >> k = m >>= λ _. k

abbrev pub pure : {W A : Type 0} → A → Run W A
pure a w = returns (a, w)

abbrev pub panic : {W A : Type 0} → Run W A
panic w = panics

-- A step that returns hands its value and state on.
pub bind-returns :
    {W A B : Type 0} (m : Run W A) (f : A → Run W B) {w w' : W} {a : A}
    → m w ≡ returns (a, w')
    → (m >>= f) w ≡ f a w'
bind-returns {B = B} m f e =
    ap
      (λ r.
        let o : Outcome _ = elim r [
          | panics ↦ panics
          | exits c ↦ exits c
          | returns (a, w') ↦ f a w'
        ] in
        o)
      e

-- A run of two steps that returns is two steps that return.
pub returns-bind :
    {W A B : Type 0} (m : Run W A) (f : A → Run W B) {w w' : W} {b : B}
    → (m >>= f) w ≡ returns (b, w')
    → (a : A) × (v : W) × (m w ≡ returns (a, v)) × (f a v ≡ returns (b, w'))
returns-bind {W} {A} {B} m f {w} {w'} {b} = split (m w)
  where
    split :
        (o : Outcome (A × W))
        → (elim o as (λ _. Outcome (B × W)) [
          | panics ↦ panics
          | exits c ↦ exits c
          | returns (a, v) ↦ f a v
        ])
          ≡ returns (b, w')
        → (a : A) × (v : W) × (o ≡ returns (a, v)) × (f a v ≡ returns (b, w'))
    split panics e = absurd (cc e)
    split (exits c) e = absurd (cc e)
    split (returns (a, v)) e = (a, v, refl, e)

-- Two steps that only compute with a result are one.
pub bind-pure :
    {W A B C : Type 0} (m : Run W A) (f : A → B) (g : B → C) (w : W)
    → ((m >>= λ a. pure (f a)) >>= λ b. pure (g b)) w ≡ (m >>= λ a. pure (g (f a))) w
bind-pure {W} {A} {B} {C} m f g w = split (m w)
  where
    split :
        (o : Outcome (A × W))
        → (elim (elim o as (λ _. Outcome (B × W)) [
          | panics ↦ panics
          | exits c ↦ exits c
          | returns (a, v) ↦ returns (f a, v)
        ])
            as (λ _. Outcome (C × W)) [
              | panics ↦ panics
              | exits c ↦ exits c
              | returns (b, v) ↦ returns (g b, v)
            ])
          ≡ (elim o as (λ _. Outcome (C × W)) [
            | panics ↦ panics
            | exits c ↦ exits c
            | returns (a, v) ↦ returns (g (f a), v)
          ])
    split panics = refl
    split (exits c) = refl
    split (returns (a, v)) = refl
