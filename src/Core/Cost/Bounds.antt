-- ===== src/Core/Cost/Bounds.antt =====
-- What `cost_micros` charges at prices that are not negative.
use kn9t.Prelude.{
  ℕ, ◌+◌, ◌*◌, ◌/◌, ◌^◌, ◌≤◌, ◌<◌, ◌≡◌, ◌∙◌, refl, pos, as_i64, as_i64-pos, scale, div_trunc, ◌+ℤ◌,
  arith,
}
use native.Mathlib.Nat.{mul-le-mul}
use kn9t.Core.Model.{Tokens, Price}
use kn9t.Core.Cost.{cost_micros}

-- The four products in millionths of a micro-dollar.
abbrev pub exact_cost : Tokens → ℕ → ℕ → ℕ → ℕ → ℕ
exact_cost t input output cache_read cache_write =
    t.input * input + t.output * output + t.cache_read * cache_read + t.cache_write * cache_write

abbrev pub price_of : ℕ → ℕ → ℕ → ℕ → Price
price_of input output cache_read cache_write = record {
  input = pos input;
  output = pos output;
  cache_read = pos cache_read;
  cache_write = pos cache_write;
}

scale-pos : (n m : ℕ) → scale n (pos m) ≡ pos (n * m)
unfolding scale
scale-pos n m = ground arith

+ℤ-pos : (n m : ℕ) → pos n +ℤ pos m ≡ pos (n + m)
unfolding ◌+ℤ◌
+ℤ-pos n m = ground arith

div_trunc-pos : (n d : ℕ) → div_trunc (pos n) d ≡ pos (n / d)
unfolding div_trunc
div_trunc-pos n d = refl

cost_micros-pos :
    (t : Tokens) (a b c d : ℕ)
    → cost_micros t (price_of a b c d) ≡ as_i64 (pos (exact_cost t a b c d / 1_000_000))
unfolding cost_micros
cost_micros-pos t a b c d = simp (scale-pos, +ℤ-pos, div_trunc-pos)

-- Every count is a u32 and every price is at most 500 dollars a token.
pub record IsRealistic (t : Tokens) (a b c d : ℕ) : Type 0 where
  pub input_u32 : t.input < 2 ^ 32
  pub output_u32 : t.output < 2 ^ 32
  pub read_u32 : t.cache_read < 2 ^ 32
  pub write_u32 : t.cache_write < 2 ^ 32
  pub input_price : a ≤ 500_000_000_000_000
  pub output_price : b ≤ 500_000_000_000_000
  pub read_price : c ≤ 500_000_000_000_000
  pub write_price : d ≤ 500_000_000_000_000

product_bound : (n p : ℕ) → n < 2 ^ 32 → p ≤ 500_000_000_000_000 → n * p ≤ 2147483648000000000000000
product_bound n p h k =
    mul-le-mul {n₁ = n} {m₁ = p} {n₂ = 2 ^ 32} {m₂ = 500_000_000_000_000} (omega arith) k

no_wrap :
    (t : Tokens) (a b c d : ℕ) → IsRealistic t a b c d → exact_cost t a b c d / 1_000_000 < 2 ^ 63
no_wrap t a b c d h = omega (
  arith,
  product_bound t.input a h.input_u32 h.input_price,
  product_bound t.output b h.output_u32 h.output_price,
  product_bound t.cache_read c h.read_u32 h.read_price,
  product_bound t.cache_write d h.write_u32 h.write_price,
)

-- With u32 counts and prices between 0 and 500 dollars a token the cost is the exact sum of
-- tokens times price, rounded down to a micro-dollar: the cast to i64 never wraps.
pub cost_micros-floor :
    (t : Tokens) (a b c d : ℕ)
    → IsRealistic t a b c d
    → (q : ℕ) × (cost_micros t (price_of a b c d) ≡ pos q)
      × (q * 1_000_000 ≤ exact_cost t a b c d)
      × (exact_cost t a b c d < q * 1_000_000 + 1_000_000)
cost_micros-floor t a b c d h = (
  exact_cost t a b c d / 1_000_000,
  cost_micros-pos t a b c d ∙ as_i64-pos _ (no_wrap t a b c d h),
  omega arith,
  omega arith,
)
