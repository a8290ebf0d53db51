-- ===== src/Provider/Retry.antt =====
-- `with_retry_with_sink` and `is_retryable` of crates/kn9t-provider-core/src/retry.rs. What the attempts answer is
-- `attempt`, by their number. The product of a delay and the f64 factor, cut to a u64, is the parameter
-- `scaled`. What is kept of a wait is its length in milliseconds; the live events are left out.
pub mod Bounded
use kn9t.Prelude.{
  ℕ, zero, suc, ◌+◌, String, Bool, true, false, not, ◌&&◌, ◌||◌, List, [], ◌∷◌, leb, ltb, ◌==◌, ◌⊎◌,
  inl, inr, if◌then◌else◌,
}
use kn9t.Provider.Assemble.{ProvErr}

pub record Backoff : Type 0 where
  pub initial_ms : ℕ
  pub max_ms : ℕ

unfoldable pub is_retryable : ProvErr → Bool
is_retryable (ProvErr.connect why) = true
is_retryable (ProvErr.http status body) = (status == 429) || (leb 500 status && leb status 599)
is_retryable e = false

unfoldable pub next_delay : (scaled : ℕ → ℕ) → Backoff → ℕ → ℕ
next_delay scaled backoff delay_ms =
    if ltb backoff.max_ms (scaled delay_ms) then backoff.max_ms else scaled delay_ms

module _ {A : Type 0} (scaled : ℕ → ℕ) (backoff : Backoff) (attempt : ℕ → ProvErr ⊎ A) where
  -- From attempt `n` on, with `left` attempts behind it: the result and the waits.
  unfoldable pub retry_from : (left n delay_ms : ℕ) → (ProvErr ⊎ A) × List ℕ
  unfolding is_retryable next_delay
  retry_from zero n delay_ms = (attempt n, [])
  retry_from (suc left) n delay_ms =
      let rest = retry_from left (n + 1) (next_delay scaled backoff delay_ms) in
      elim (attempt n) [
        | inr stream ↦ (inr stream, [])
        | inl e ↦ if is_retryable e then (rest.0, delay_ms ∷ rest.1) else (inl e, [])
      ]

  unfoldable pub with_retry_with_sink : (max : ℕ) → (ProvErr ⊎ A) × List ℕ
  unfolding retry_from
  with_retry_with_sink max = retry_from max 0 backoff.initial_ms
