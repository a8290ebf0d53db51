-- ===== src/Prelude/Int.antt =====
-- Whole numbers over the native ℕ, and Rust's `as i64` from a wider type.
use Prim.Native.Nat.{ℕ, suc, ◌+◌, ◌-◌, ◌*◌, ◌/◌, ◌%◌, ◌^◌, ◌<◌}
use mathlib.Core.Path.{◌≡◌}
use native.Mathlib.Omega.{arith}
use kn9t.Prelude.Tests.{ltb, leb, if◌then◌else◌}

-- `negsuc n` is -(n + 1).
pub data ℤ : Type 0 where
  pos : ℕ → ℤ
  negsuc : ℕ → ℤ

abbrev pub pos_part : ℤ → ℕ
pos_part (pos n) = n
pos_part (negsuc n) = 0

abbrev pub neg_part : ℤ → ℕ
neg_part (pos n) = 0
neg_part (negsuc n) = suc n

-- a - b, as an integer.
abbrev pub sub_ℕ : ℕ → ℕ → ℤ
sub_ℕ a b = if leb b a then pos (a - b) else negsuc (b - a - 1)

infixl 65 ◌+ℤ◌
unfoldable pub ◌+ℤ◌ : ℤ → ℤ → ℤ
a +ℤ b = sub_ℕ (pos_part a + pos_part b) (neg_part a + neg_part b)

-- A product with a natural number.
unfoldable pub scale : ℕ → ℤ → ℤ
scale n z = sub_ℕ (n * pos_part z) (n * neg_part z)

-- Division by a positive number that rounds towards zero, as Rust's `/` does.
unfoldable pub div_trunc : ℤ → ℕ → ℤ
div_trunc (pos n) d = pos (n / d)
div_trunc (negsuc n) d = sub_ℕ 0 (suc n / d)

abbrev pub i64_mod : ℕ
i64_mod = 2 ^ 64

abbrev pub i64_half : ℕ
i64_half = 2 ^ 63

-- The low 64 bits of a whole number.
unfoldable pub to_bits : ℤ → ℕ
to_bits (pos n) = n % i64_mod
to_bits (negsuc n) = i64_mod - 1 - n % i64_mod

-- The cast `as i64` keeps the low 64 bits and reads them as two's complement.
unfoldable pub as_i64 : ℤ → ℤ
unfolding to_bits
as_i64 z =
    let bits = to_bits z in if ltb bits i64_half then pos bits else negsuc (i64_mod - 1 - bits)

pub as_i64-pos : (n : ℕ) → n < i64_half → as_i64 (pos n) ≡ pos n
unfolding as_i64
as_i64-pos n h = ground arith
