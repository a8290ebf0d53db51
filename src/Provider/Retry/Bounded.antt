-- ===== src/Provider/Retry/Bounded.antt =====
-- Which attempt decides (crates/kn9t-provider-core/src/retry.rs), and how long is waited.
use kn9t.Prelude.{
  ℕ, zero, suc, ◌+◌, ◌≤◌, ◌<◌, ◌≡◌, refl, sym, ap, ◌∙◌, subst, Bool, true, false, List, [], ◌∷◌,
  All, length, ◌⊎◌, inl, inr, Bool-cases, arith,
}
use kn9t.Provider.Assemble.{ProvErr}
use kn9t.Provider.Retry.{Backoff, is_retryable, next_delay, retry_from, with_retry_with_sink}

-- The outcome is an error after which another attempt is made.
abbrev pub is_passing : {A : Type 0} → ProvErr ⊎ A → Bool
is_passing (inl e) = is_retryable e
is_passing (inr stream) = false

next_delay-bounded :
    (scaled : ℕ → ℕ) (backoff : Backoff) (d : ℕ) → next_delay scaled backoff d ≤ backoff.max_ms
unfolding next_delay
next_delay-bounded scaled backoff d = ground arith

outcome_cases :
    {A : Type 0} (x : ProvErr ⊎ A)
    → ((a : A) × (x ≡ inr a))
      ⊎ ((e : ProvErr) × (x ≡ inl e) × (is_retryable e ≡ true))
      ⊎ ((e : ProvErr) × (x ≡ inl e) × (is_retryable e ≡ false))
outcome_cases (inr a) = inl (a, refl)
outcome_cases (inl e) = elim (Bool-cases (is_retryable e)) [
  | inl yes_again ↦ inr (inl (e, refl, yes_again))
  | inr never ↦ inr (inr (e, refl, never))
]

module _ {A : Type 0} (scaled : ℕ → ℕ) (backoff : Backoff) (attempt : ℕ → ProvErr ⊎ A) where
  -- Of the attempts from `n` on, attempt `n + k` decides.
  pub record IsDecided (left n k : ℕ) (r : (ProvErr ⊎ A) × List ℕ) : Type 0 where
    pub within : k ≤ left
    pub result : r.0 ≡ attempt (n + k)
    pub passed : (j : ℕ) → j < k → is_passing (attempt (n + j)) ≡ true
    pub final : k < left → is_passing (attempt (n + k)) ≡ false
    pub waits : length r.1 ≡ k

  here :
      (left n delay_ms : ℕ) (r : (ProvErr ⊎ A) × List ℕ)
      → r.0 ≡ attempt n
      → r.1 ≡ []
      → (0 < left → is_passing (attempt n) ≡ false)
      → IsDecided left n 0 r
  here left n delay_ms r e w f =
      let at : n ≡ n + 0 = omega arith in
      record {
        within = omega arith;
        result = e ∙ ap attempt at;
        passed = λ j lt. absurd (omega arith);
        final = λ lt. ap (λ i. is_passing (attempt i)) (sym at) ∙ f lt;
        waits = ap length w;
      }

  all_passed :
      (n k : ℕ)
      → is_passing (attempt n) ≡ true
      → ((j : ℕ) → j < k → is_passing (attempt (n + 1 + j)) ≡ true)
      → (j : ℕ) → j < suc k
      → is_passing (attempt (n + j)) ≡ true
  all_passed n k p more zero lt =
      let at : n ≡ n + 0 = omega arith in ap (λ i. is_passing (attempt i)) (sym at) ∙ p
  all_passed n k p more (suc j) lt =
      let at : n + 1 + j ≡ n + suc j = omega arith in
      ap (λ i. is_passing (attempt i)) (sym at) ∙ more j (omega arith)

  later :
      (left n k d : ℕ) (rest r : (ProvErr ⊎ A) × List ℕ)
      → is_passing (attempt n) ≡ true
      → r.0 ≡ rest.0
      → r.1 ≡ d ∷ rest.1
      → IsDecided left (n + 1) k rest
      → IsDecided (suc left) n (suc k) r
  later left n k d rest r p e w s =
      let at : n + 1 + k ≡ n + suc k = omega arith in
      record {
        within = omega (arith, s.within);
        result = e ∙ s.result ∙ ap attempt at;
        passed = all_passed n k p s.passed;
        final = λ lt. ap (λ i. is_passing (attempt i)) (sym at) ∙ s.final (omega arith);
        waits = ap length w ∙ ap suc s.waits;
      }

  retry_from-IsDecided :
      (left n delay_ms : ℕ)
      → (k : ℕ) × IsDecided left n k (retry_from scaled backoff attempt left n delay_ms)
  unfolding retry_from
  retry_from-IsDecided zero n d =
      (0, here zero n d (attempt n, []) refl refl (λ lt. absurd (omega arith)))
  retry_from-IsDecided (suc left) n d =
      let whole = retry_from scaled backoff attempt (suc left) n d in
      let rest = retry_from scaled backoff attempt left (n + 1) (next_delay scaled backoff d) in
      elim (outcome_cases (attempt n)) [
        | inl (a, e) ↦ (
          0,
          here (suc left) n d whole (ground (arith, e)) (ground (arith, e)) (λ _. ap is_passing e),
        )
        | inr (inl (err, e, again)) ↦
            let (k, s) = retry_from-IsDecided left (n + 1) (next_delay scaled backoff d) in
            (
              suc k,
              later left n k d rest whole (ap is_passing e ∙ again) (ground (arith, e, again))
                  (ground (arith, e, again)) s,
            )
        | inr (inr (err, e, never)) ↦ (
          0,
          here (suc left) n d whole (ground (arith, e, never)) (ground (arith, e, never))
              (λ _. ap is_passing e ∙ never),
        )
      ]

  waits-bounded :
      (bound left n delay_ms : ℕ)
      → backoff.max_ms ≤ bound
      → delay_ms ≤ bound
      → All (λ w. w ≤ bound) (retry_from scaled backoff attempt left n delay_ms).1
  unfolding retry_from
  waits-bounded bound zero n d m h = tt
  waits-bounded bound (suc left) n d m h =
      let rest =
        waits-bounded bound left (n + 1) (next_delay scaled backoff d) m
          (omega (arith, next_delay-bounded scaled backoff d)) in
      let waits = (retry_from scaled backoff attempt (suc left) n d).1 in
      let more = (retry_from scaled backoff attempt left (n + 1) (next_delay scaled backoff d)).1 in
      elim (outcome_cases (attempt n)) [
        | inl (a, e) ↦
            let none_left : waits ≡ [] = ground (arith, e) in
            subst (All (λ w. w ≤ bound)) (sym none_left) tt
        | inr (inl (err, e, again)) ↦
            let one_more : waits ≡ d ∷ more = ground (arith, e, again) in
            subst (All (λ w. w ≤ bound)) (sym one_more) (h, rest)
        | inr (inr (err, e, never)) ↦
            let none_left : waits ≡ [] = ground (arith, e, never) in
            subst (All (λ w. w ≤ bound)) (sym none_left) tt
      ]

  -- At most `limit` retries are made: the result is that of one attempt; every attempt before it failed by an
  -- error that is worth a retry, and it did not itself, unless it is the last one allowed. Before each
  -- retry there is one wait, and no wait is longer than both the initial delay and max_ms.
  pub with_retry_with_sink-IsDecided :
      (limit bound : ℕ)
      → backoff.max_ms ≤ bound
      → backoff.initial_ms ≤ bound
      → let r = with_retry_with_sink scaled backoff attempt limit in
        ((k : ℕ) × IsDecided limit 0 k r) × All (λ w. w ≤ bound) r.1
  unfolding with_retry_with_sink
  with_retry_with_sink-IsDecided limit bound m h = (
    retry_from-IsDecided limit 0 backoff.initial_ms,
    waits-bounded bound limit 0 backoff.initial_ms m h,
  )
