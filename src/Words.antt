-- ===== src/Words.antt =====
-- Unsigned 64-bit arithmetic, with its wrap-around written out.
use efimon.Prelude.{ℕ, ◌+◌, ◌-◌, ◌*◌, ◌%◌, ◌^◌, ◌≤◌, ◌<◌, ◌≡◌, arith}

abbrev pub u64 : ℕ
u64 = 2 ^ 64

abbrev pub add64 : ℕ → ℕ → ℕ
add64 a b = (a + b) % u64

abbrev pub sub64 : ℕ → ℕ → ℕ
sub64 a b = (a + u64 - b) % u64

abbrev pub mul64 : ℕ → ℕ → ℕ
mul64 a b = (a * b) % u64

pub sub64-of_le : (a b : ℕ) → b ≤ a → a < u64 → sub64 a b ≡ a - b
sub64-of_le a b h k = omega arith
