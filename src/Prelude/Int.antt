-- ===== src/Prelude/Int.antt =====
-- Signed integers over the native numbers, and the conversions that C++ makes between `int`
-- (32 bits), `unsigned int` and `size_t` (64 bits).
use Prim.Native.Nat.{ℕ, suc, ◌+◌, ◌-◌, ◌%◌, ◌≤◌}
use mathlib.Core.Path.{◌≡◌, refl}
use mathlib.Core.Bool.{Bool}
use native.Mathlib.Omega.{arith}
use gr4_torchdsp.Prelude.Tests.{ltb, if◌then◌else◌}

-- `negsuc n` is -(n + 1).
pub data ℤ : Type 0 where
  pos : ℕ → ℤ
  negsuc : ℕ → ℤ

abbrev pub pos_part : ℤ → ℕ
pos_part (pos n) = n
pos_part (negsuc n) = 0

abbrev pub neg_part : ℤ → ℕ
neg_part (pos n) = 0
neg_part (negsuc n) = suc n

abbrev pub ltb_ℤ : ℤ → ℤ → Bool
ltb_ℤ a b = ltb (pos_part a + neg_part b) (pos_part b + neg_part a)

abbrev pub is_zero : ℤ → Bool
is_zero z = ltb (pos_part z + neg_part z) 1

abbrev pub int_max : ℕ
int_max = 2147483647

-- `size_t` arithmetic wraps.
abbrev pub size_mod : ℕ
size_mod = 18446744073709551616

-- `(int)n` of a `size_t`: the low 32 bits, read as two's complement.
unfoldable pub to_int : ℕ → ℤ
to_int n = let w = n % 4294967296 in if ltb w 2147483648 then pos w else negsuc (4294967295 - w)

-- `(size_t)z` of an `int`.
unfoldable pub to_size : ℤ → ℕ
to_size (pos n) = n
to_size (negsuc n) = 18446744073709551615 - n

-- `(unsigned int)n` of a `size_t`.
abbrev pub to_unsigned : ℕ → ℕ
to_unsigned n = n % 4294967296

-- A size that an `int` can hold is converted to itself.
pub to_int-small : (n : ℕ) → n ≤ int_max → to_int n ≡ pos n
unfolding to_int
to_int-small n h = ground arith

to_int_wraps : to_int 4294967295 ≡ negsuc 0
unfolding to_int
to_int_wraps = refl

to_size_wraps : to_size (negsuc 0) ≡ 18446744073709551615
unfolding to_size
to_size_wraps = refl

infix 50 ◌≤ℤ◌
abbrev pub ◌≤ℤ◌ : ℤ → ℤ → Type 0
a ≤ℤ b = pos_part a + neg_part b ≤ pos_part b + neg_part a
