-- ===== src/Float.antt =====
-- The machine's floating point, which the program only uses. A value of `F` is a `double`; a
-- `float` is a `double` that `single` leaves alone, and every operation on floats is the one on
-- doubles with its result rounded by `single`.
use efimon.Prelude.{ℕ, ◌+◌, ◌-◌, ◌*◌, ◌/◌, ◌≡◌, refl, Bool, arith, leb}

pub record Float (F : Type 0) : Type 0 where
  -- The nearest value to an unsigned integer.
  pub of_ℕ : ℕ → F
  pub add : F → F → F
  pub sub : F → F → F
  pub mul : F → F → F
  pub div : F → F → F
  pub neg : F → F
  pub ge : F → F → Bool
  -- Rounding to a `float`.
  pub single : F → F
  -- The cast to an unsigned 64-bit integer.
  pub trunc : F → ℕ

-- The arithmetic of sums is exact: no addition and no rounding to `float` loses anything. It holds
-- of numbers whose sums stay within the precision.
pub record IsExact {F : Type 0} (d : Float F) : Type 0 where
  pub add_assoc : (a b c : F) → d.add (d.add a b) c ≡ d.add a (d.add b c)
  pub add_comm : (a b : F) → d.add a b ≡ d.add b a
  pub zero-add : (a : F) → d.add (d.of_ℕ 0) a ≡ a
  pub single_id : (a : F) → d.single a ≡ a

-- Whole numbers, to show that the laws can be met and to run the model.
abbrev pub whole : Float ℕ
whole = record {
  of_ℕ = λ n. n;
  add = λ a b. a + b;
  sub = λ a b. a - b;
  mul = λ a b. a * b;
  div = λ a b. a / b;
  neg = λ a. 0;
  ge = λ a b. leb b a;
  single = λ a. a;
  trunc = λ a. a;
}

pub whole-IsExact : IsExact whole
whole-IsExact = record {
  add_assoc = λ a b c. omega arith;
  add_comm = λ a b. omega arith;
  zero-add = λ a. omega arith;
  single_id = λ a. refl;
}
