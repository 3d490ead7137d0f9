-- ===== src/Base/Outcome.antt =====
-- `Invariant` of webshotd/include/invariant.hpp: where it fails, the process aborts.
use webshot.Base.Bytes.{Bytes}

pub data Outcome {ℓ} (A : Type ℓ) : Type ℓ where
  returns : A → Outcome A
  aborts : Bytes → Outcome A

infixl 5 ◌>>=◌
abbrev pub ◌>>=◌ {ℓ κ} : {A : Type ℓ} {B : Type κ} → Outcome A → (A → Outcome B) → Outcome B
returns a >>= f = f a
aborts why >>= f = aborts why
