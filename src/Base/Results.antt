-- ===== src/Base/Results.antt =====
-- `Expected<T, E>` of webshotd/include/expected.hpp with `TRY` and `ENSURE` of
-- webshotd/include/try.hpp.
use mathlib.Core.Path.{◌≡◌, refl}
use mathlib.Core.Bool.{Bool, true, false}
use mathlib.Core.Option.{Option, none, some}
use mathlib.Core.Logic.{◌⊎◌, inl, inr}

pub data Expected {ℓ κ} (A : Type ℓ) (E : Type κ) : Type (ℓ ⊔ κ) where
  ok : A → Expected A E
  err : E → Expected A E

-- `TRY(e)` binds the value, or returns the error.
infixl 5 ◌>>=◌ ◌>>◌
abbrev pub ◌>>=◌ {ℓ κ μ} :
    {A : Type ℓ} {B : Type κ} {E : Type μ} → Expected A E → (A → Expected B E) → Expected B E
ok a >>= f = f a
err e >>= f = err e

abbrev pub ◌>>◌ {κ μ} :
    {B : Type κ} {E : Type μ} → Expected (Unit {0}) E → Expected B E → Expected B E
m >> k = m >>= λ _. k

module _ {ℓ κ} {A : Type ℓ} {E : Type κ} where
  -- `TRY_OK_OR(o, e)`.
  abbrev pub ok_or : Option A → E → Expected A E
  ok_or none e = err e
  ok_or (some a) e = ok a

  -- `TRY_ERR_AS(x, e)`.
  abbrev pub err_as {μ} : {F : Type μ} → Expected A F → E → Expected A E
  err_as (ok a) e = ok a
  err_as (err f) e = err e

  pub Expected-cases : (x : Expected A E) → ((a : A) × (x ≡ ok a)) ⊎ ((e : E) × (x ≡ err e))
  Expected-cases (ok a) = inl (a, refl)
  Expected-cases (err e) = inr (e, refl)

-- `ENSURE(b, e)`.
abbrev pub ensure {κ} : {E : Type κ} → Bool → E → Expected (Unit {0}) E
ensure true e = ok tt
ensure false e = err e
