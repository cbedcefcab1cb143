-- ===== src/Dewey/Int32.antt =====
-- The C type `int`, 32 bits wide: a value is its bit pattern, and arithmetic wraps around.
use flappy.Base.{ℕ, ◌+◌, ◌-◌, ◌%◌, ◌^◌, ◌≤◌, ◌<◌, ◌≡◌, Bool, arith, ltb, leb, ◌==◌}

abbrev pub int_mod : ℕ
int_mod = 2 ^ 32

-- The bit pattern of -n.
abbrev pub minus : ℕ → ℕ
minus n = int_mod - n

unfoldable pub sub32 : ℕ → ℕ → ℕ
sub32 a b = (a + int_mod - b) % int_mod

abbrev pub is_negative : ℕ → Bool
is_negative a = leb (2 ^ 31) a

-- The place of a value in the order of the integers: -2^31 has rank 0.
abbrev pub rank : ℕ → ℕ
rank a = (a + 2 ^ 31) % int_mod

-- A bit pattern of a value from -3 to 2^30 - 1. The difference of two such values does not
-- overflow.
pub record IsSmall (a : ℕ) : Type 0 where
  pub word : a < int_mod
  pub low : 2 ^ 31 - 3 ≤ rank a
  pub high : rank a < 2 ^ 31 + 2 ^ 30

pub sub32_negative :
    (a b : ℕ) → IsSmall a → IsSmall b → is_negative (sub32 a b) ≡ ltb (rank a) (rank b)
unfolding sub32
sub32_negative a b ha hb = ground arith

pub sub32_zero : (a b : ℕ) → IsSmall a → IsSmall b → (sub32 a b == 0) ≡ (rank a == rank b)
unfolding sub32
sub32_zero a b ha hb = ground arith

pub IsSmall-nat : (n : ℕ) → n < 2 ^ 30 → IsSmall n
IsSmall-nat n h = omega arith
