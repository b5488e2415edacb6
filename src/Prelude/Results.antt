-- ===== src/Prelude/Results.antt =====
-- A Go result `(T, error)`: a value, or the error that is returned in its place.
use mathlib.Core.Path.{◌≡◌, refl, subst}
use mathlib.Core.Logic.{◌⊎◌, inl, inr}

pub data Result {ℓ κ} (E : Type ℓ) (T : Type κ) : Type (ℓ ⊔ κ) where
  ok : T → Result E T
  err : E → Result E T

-- `if err != nil { return err }` between two steps.
infixl 5 ◌>>=◌
abbrev pub ◌>>=◌ {ℓ κ μ} :
    {E : Type ℓ} {S : Type κ} {T : Type μ} → Result E S → (S → Result E T) → Result E T
ok s >>= next = next s
err e >>= next = err e

module _ {ℓ κ μ} {E : Type ℓ} {S : Type κ} {T : Type μ} where
  -- Two steps that end well have both ended well.
  pub bind-ok :
      (step : Result E S) (next : S → Result E T) {t : T}
      → (step >>= next) ≡ ok t
      → (s : S) × (step ≡ ok s) × (next s ≡ ok t)
  bind-ok (ok s) next done = (s, refl, done)
  bind-ok (err e) next done = cc

-- To split on a computed result and keep the equation.
pub Result-cases {ℓ κ} :
    {E : Type ℓ} {A : Type κ} (r : Result E A) → ((e : E) × (r ≡ err e)) ⊎ ((a : A) × (r ≡ ok a))
Result-cases (err e) = inl (e, refl)
Result-cases (ok a) = inr (a, refl)

-- A property of the value of a result, if it has one.
abbrev pub OnOk {ℓ κ μ} : {E : Type ℓ} {A : Type κ} → (A → Type μ) → Result E A → Type μ
OnOk P (ok a) = P a
OnOk P (err e) = Unit

pub OnOk-ok {ℓ κ μ} :
    {E : Type ℓ} {A : Type κ} (P : A → Type μ) (r : Result E A) {a : A} → OnOk P r → r ≡ ok a → P a
OnOk-ok {E = E} P r h e = subst (OnOk {E = E} P) e h
