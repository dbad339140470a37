-- ===== src/Outcome.antt =====
-- How a call of the program ends.
use efimon.Prelude.{◌≡◌, refl, ◌⊎◌, inl, inr, arith}
use efimon.Status.{Status}

-- `returns`: normally. `throws`: with a `Status` as the exception. `escapes`: with an exception of
-- the standard library. `faults`: with undefined behaviour.
pub data Outcome {ℓ} (A : Type ℓ) : Type ℓ where
  returns : A → Outcome A
  throws : Status → Outcome A
  escapes : Outcome A
  faults : Outcome A

infixl 5 ◌>>=◌
abbrev pub ◌>>=◌ {ℓ κ} : {A : Type ℓ} {B : Type κ} → Outcome A → (A → Outcome B) → Outcome B
returns a >>= f = f a
throws e >>= f = throws e
escapes >>= f = escapes
faults >>= f = faults

pub Outcome-cases {ℓ} :
    {A : Type ℓ} (o : Outcome A)
    → ((a : A) × (o ≡ returns a)) ⊎ ((s : Status) × (o ≡ throws s)) ⊎ (o ≡ escapes) ⊎ (o ≡ faults)
Outcome-cases (returns a) = inl (a, refl)
Outcome-cases (throws e) = inr (inl (e, refl))
Outcome-cases escapes = inr (inr (inl refl))
Outcome-cases faults = inr (inr (inr refl))

-- A chain that returns has a first part that returns.
pub >>=-returns {ℓ κ} :
    {A : Type ℓ} {B : Type κ} (o : Outcome A) (f : A → Outcome B) (b : B)
    → o >>= f ≡ returns b
    → (a : A) × (o ≡ returns a) × (f a ≡ returns b)
>>=-returns (returns a) f b e = (a, refl, e)
>>=-returns (throws x) f b e = absurd (ground arith)
>>=-returns escapes f b e = absurd (ground arith)
>>=-returns faults f b e = absurd (ground arith)
