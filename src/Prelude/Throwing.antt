-- ===== src/Prelude/Throwing.antt =====
-- Results of code that may throw.
use mathlib.Core.Path.{◌≡◌, refl}
use mathlib.Core.Logic.{◌⊎◌, inl, inr}

-- What such code comes to.
pub data Result {ℓ κ} (E : Type ℓ) (B : Type κ) : Type (ℓ ⊔ κ) where
  throws : E → Result E B
  returns : B → Result E B

pub Result-cases {ℓ κ} :
    {E : Type ℓ} {B : Type κ} (r : Result E B)
    → ((e : E) × (r ≡ throws e)) ⊎ ((b : B) × (r ≡ returns b))
Result-cases (throws e) = inl (e, refl)
Result-cases (returns b) = inr (b, refl)

-- Statements in a row: the first one that throws ends them.
infixl 5 ◌>>=◌
abbrev pub ◌>>=◌ {ℓ κ ι} :
    {E : Type ℓ} {B : Type κ} {C : Type ι} → Result E B → (B → Result E C) → Result E C
throws e >>= f = throws e
returns b >>= f = f b
