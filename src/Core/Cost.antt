-- ===== src/Core/Cost.antt =====
-- `cost_micros` of crates/kn9t-core/src/model.rs. The sum is taken in i128, which four products of
-- a u32 and an i64 cannot leave, so it is exact here; the cast to i64 at the end may wrap.
pub mod Bounds
use kn9t.Prelude.{ℤ, ◌+ℤ◌, scale, div_trunc, as_i64}
use kn9t.Core.Model.{Tokens, Price}

unfoldable pub cost_micros : Tokens → Price → ℤ
cost_micros tokens price =
    let input = scale tokens.input price.input in
    let output = scale tokens.output price.output in
    let cr = scale tokens.cache_read price.cache_read in
    let cw = scale tokens.cache_write price.cache_write in
    as_i64 (div_trunc (input +ℤ output +ℤ cr +ℤ cw) 1_000_000)
