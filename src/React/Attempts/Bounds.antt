-- ===== src/React/Attempts/Bounds.antt =====
-- The attempts of a turn are bounded.
use kn9t.Prelude.{
  ℕ, zero, suc, ◌+◌, ◌-◌, min, ◌++◌, ◌∷◌, subst, ◌≤◌, ◌<◌, ◌≡◌, refl, some, [], length,
  length-append, get_elem?, ltb, ◌⊎◌, inl, inr, arith, Bool-cases, Option-cases,
}
use kn9t.React.Attempts.{
  Attempt, ReactError, ReactConfig, Round, LoopState, LoopEnd, one_attempt, retry_truncated,
  turn_round, attempt_loop, first_state,
}

-- Within the limits, and one reminder for each truncation.
pub record IsWithin (config : ReactConfig) (s : LoopState) : Type 0 where
  pub truncations : s.trunc_n ≤ config.truncation_attempts
  pub replanned : s.replans ≤ config.max_context_replans
  pub reminded : length s.reminders ≡ s.trunc_n

pub outcome_cases :
    {A : Type 0} (o : ReactError ⊎ Attempt A)
    → ((e : ReactError) × (o ≡ inl e)) ⊎ ((a : Attempt A) × (o ≡ inr a))
outcome_cases (inl e) = inl (e, refl)
outcome_cases (inr a) = inr (a, refl)

pub round_cases :
    {A : Type 0} (o : LoopEnd A ⊎ LoopState)
    → ((end : LoopEnd A) × (o ≡ inl end)) ⊎ ((s : LoopState) × (o ≡ inr s))
round_cases (inl end) = inl (end, refl)
round_cases (inr s) = inr (s, refl)

module _ {A : Type 0} (config : ReactConfig) where
  one_attempt-replans :
      (r : Round A) (replans : ℕ)
      → replans ≤ config.max_context_replans
      → (a : Attempt A) → (one_attempt config r replans).0 ≡ inr a
      → (replans ≤ (one_attempt config r replans).1)
        × ((one_attempt config r replans).1 ≤ config.max_context_replans)
  unfolding one_attempt
  one_attempt-replans r replans within a e = ground (arith, within, e)

  one_attempt-overflow :
      (r : Round A) (replans : ℕ)
      → (one_attempt config r replans).0 ≡ inr Attempt.context_overflow
      → replans < (one_attempt config r replans).1
  unfolding one_attempt
  one_attempt-overflow r replans e = ground (arith, e)

  retry_truncated_next :
      (s s' : LoopState) (replans : ℕ)
      → replans ≤ config.max_context_replans
      → s.replans ≤ replans
      → IsWithin config s
      → retry_truncated {A = A} config s replans ≡ inr s'
      → IsWithin config s' × (s.trunc_n + s.replans < s'.trunc_n + s'.replans)
  unfolding retry_truncated
  retry_truncated_next s s' replans within more w next =
      let ladder = config.truncation_ladder in
      let further =
        λ (t : LoopState). IsWithin config t × (s.trunc_n + s.replans < t.trunc_n + t.replans) in
      elim (Bool-cases (ltb config.truncation_attempts (s.trunc_n + 1))) [
        | inl over ↦ absurd (ground (arith, over, next))
        | inr left ↦
            elim (Option-cases (get_elem? ladder (min (s.trunc_n + 1 - 1) (length ladder - 1)))) [
              | inl none_left ↦ absurd (ground (arith, left, none_left, next))
              | inr (lines, rung) ↦
                  let after : LoopState = record {
                    trunc_n = s.trunc_n + 1;
                    replans = replans;
                    reminders = s.reminders ++ lines ∷ [];
                  } in
                  let same : after ≡ s' = ground (arith, left, rung, next) in
                  let room : s.trunc_n + 1 ≤ config.truncation_attempts = ground (arith, left) in
                  subst further same (
                    record {
                      truncations = room;
                      replanned = within;
                      reminded = omega (arith, length-append s.reminders (lines ∷ []), w.reminded);
                    },
                    omega arith,
                  )
            ]
      ]

  -- A round that does not leave the loop uses up an attempt or a re-plan.
  turn_round_next :
      (r : Round A) (s s' : LoopState)
      → IsWithin config s
      → turn_round config r s ≡ inr s'
      → IsWithin config s' × (s.trunc_n + s.replans < s'.trunc_n + s'.replans)
  unfolding turn_round
  turn_round_next r s s' w next = elim (outcome_cases (one_attempt config r s.replans).0) [
    | inl (e, failed) ↦ absurd (ground (arith, failed, next))
    | inr (Attempt.completed a, o) ↦ absurd (ground (arith, o, next))
    | inr (Attempt.aborted_in_stream a, o) ↦ absurd (ground (arith, o, next))
    | inr (Attempt.truncated, o) ↦
        let (more, within) = one_attempt-replans r s.replans w.replanned Attempt.truncated o in
        let retried : retry_truncated config s (one_attempt config r s.replans).1 ≡ inr s' =
          ground (arith, o, next) in
        retry_truncated_next s s' _ within more w retried
    | inr (Attempt.context_overflow, o) ↦
        let (_, within) = one_attempt-replans r s.replans w.replanned Attempt.context_overflow o in
        let more = one_attempt-overflow r s.replans o in
        let after : LoopState = record s { replans = (one_attempt config r s.replans).1 } in
        let same : after ≡ s' = ground (arith, o, next) in
        subst (λ t. IsWithin config t × (s.trunc_n + s.replans < t.trunc_n + t.replans)) same
          (
            record { truncations = w.truncations; replanned = within; reminded = w.reminded },
            omega arith,
          )
  ]

  attempt_loop_enough :
      (rounds : ℕ → Round A) (fuel i : ℕ) (s : LoopState)
      → IsWithin config s
      → config.truncation_attempts + config.max_context_replans < fuel + (s.trunc_n + s.replans)
      → (end : LoopEnd A) × (attempt_loop config rounds fuel i s ≡ some end)
  unfolding attempt_loop
  attempt_loop_enough rounds zero i s w enough =
      absurd (let a = w.truncations in let b = w.replanned in omega arith)
  attempt_loop_enough rounds (suc fuel) i s w enough =
      elim (round_cases (turn_round config (rounds i) s)) [
        | inl (end, left) ↦ (end, ground (arith, left))
        | inr (s', next) ↦
            let (w', further) = turn_round_next (rounds i) s s' w next in
            let (end, rest) = attempt_loop_enough rounds fuel (i + 1) s' w' (omega arith) in
            (end, ground (arith, next, rest))
      ]

-- Whatever the store, the compactor and the provider answer, a turn gives up or has its answer after
-- at most one attempt more than the truncations and the re-plans that the configuration allows.
pub attempt_loop_terminates :
    {A : Type 0} (config : ReactConfig) (rounds : ℕ → Round A)
    → (end : LoopEnd A) × (attempt_loop config rounds
          (suc (config.truncation_attempts + config.max_context_replans))
          0
          first_state
        ≡ some end)
attempt_loop_terminates config rounds =
    attempt_loop_enough config rounds
      (suc (config.truncation_attempts + config.max_context_replans)) 0 first_state
      (record { truncations = omega arith; replanned = omega arith; reminded = refl }) (omega arith)
