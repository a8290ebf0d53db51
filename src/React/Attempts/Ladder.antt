-- ===== src/React/Attempts/Ladder.antt =====
-- The truncation ladder: its index stays in bounds.
use kn9t.Prelude.{
  ℕ, zero, suc, ◌+◌, ◌-◌, min, ◌<◌, ◌≢◌, none, some, List, [], ◌∷◌, length, get_elem?, inl, inr,
  arith,
}
use kn9t.React.Attempts.{ReactConfig, Round, LoopState, LoopEnd, turn_round, attempt_loop}
use kn9t.React.Attempts.Bounds.{round_cases}

get_elem?-below : (l : List ℕ) (i : ℕ) → i < length l → get_elem? l i ≢ none
get_elem?-below [] i h = absurd (omega arith)
get_elem?-below (x ∷ xs) zero h = ground arith
get_elem?-below (x ∷ xs) (suc i) h = get_elem?-below xs i (omega arith)

module _ {A : Type 0} (config : ReactConfig) (ladder : 0 < length config.truncation_ladder) where
  turn_round_in_bounds :
      (r : Round A) (s : LoopState) → turn_round config r s ≢ inl LoopEnd.panicked
  unfolding turn_round
  turn_round_in_bounds r s =
      let i = min (s.trunc_n + 1 - 1) (length config.truncation_ladder - 1) in
      let rung = get_elem?-below config.truncation_ladder i (omega arith) in ground (arith, rung)

  -- A ladder that has a rung is never indexed out of bounds, however often answers are truncated.
  pub attempt_loop_in_bounds :
      (rounds : ℕ → Round A) (fuel i : ℕ) (s : LoopState)
      → attempt_loop config rounds fuel i s ≢ some LoopEnd.panicked
  unfolding attempt_loop
  attempt_loop_in_bounds rounds zero i s = ground arith
  attempt_loop_in_bounds rounds (suc fuel) i s =
      elim (round_cases (turn_round config (rounds i) s)) [
        | inl (end, left) ↦ ground (arith, left, turn_round_in_bounds (rounds i) s)
        | inr (s', next) ↦ ground (arith, next, attempt_loop_in_bounds rounds fuel (i + 1) s')
      ]
