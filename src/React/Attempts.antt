-- ===== src/React/Attempts.antt =====
-- The attempts of one turn: `one_attempt` of crates/kn9t-react/src/exec.rs and the attempt loop of
-- `execute_turn` in crates/kn9t-react/src/turn.rs. What the store, the compactor and the provider answer in a round
-- is a `Round`, whatever it is; `A` is the assembled answer. The events that tell clients of a
-- retry, the request's text and the recording of usage are left out. The counters are u32
-- and stop at the configured limits, so they are not wrapped.
pub mod Bounds
pub mod Ladder
use kn9t.Prelude.{
  ℕ, zero, suc, ◌+◌, ◌-◌, min, String, Bool, true, false, not, ◌&&◌, Option, none, some, List, [],
  ◌∷◌, ◌++◌, length, get_elem?, ltb, ◌⊎◌, inl, inr, if◌then◌else◌,
}

pub data Attempt (A : Type 0) : Type 0 where
  completed : A → Attempt A
  aborted_in_stream : A → Attempt A
  truncated : Attempt A
  context_overflow : Attempt A

pub data ReactError : Type 0 where
  store provider : String → ReactError
  compaction_loop compaction_unavailable truncation_gave_up turn_limit : ReactError

pub record ReactConfig : Type 0 where
  pub truncation_attempts : ℕ
  pub truncation_ladder : List ℕ
  pub max_context_replans : ℕ

abbrev pub default_config : ReactConfig
default_config = record {
  truncation_attempts = 4;
  truncation_ladder = 150 ∷ 100 ∷ 50 ∷ 25 ∷ 10 ∷ [];
  max_context_replans = 1;
}

-- `plan_request` says whether it offers a span to compact.
pub record Round (A : Type 0) : Type 0 where
  pub plan : String ⊎ Bool
  pub compaction : ReactError ⊎ Attempt A
  pub plan_again : String ⊎ Bool
  pub answer : ReactError ⊎ Attempt A

pub record LoopState : Type 0 where
  pub trunc_n : ℕ
  pub replans : ℕ
  pub reminders : List ℕ

-- How the loop is left; `panicked` is the index into an empty ladder.
pub data LoopEnd (A : Type 0) : Type 0 where
  assembled : A → LoopEnd A
  aborted : A → LoopEnd A
  failed : ReactError → LoopEnd A
  panicked : LoopEnd A

module _ {A : Type 0} where
  unfoldable pub is_overflow : Attempt A → Bool
  is_overflow context_overflow = true
  is_overflow a = false

  -- The provider's answer, and the charge for an overflow that no compaction can cure.
  unfoldable pub answered :
      ReactConfig → Round A → (offered : Bool) → (replans : ℕ) → (ReactError ⊎ Attempt A) × ℕ
  unfolding is_overflow
  answered config r offered replans = elim r.answer [
    | inl e ↦ (inl e, replans)
    | inr a ↦
        let charged = replans + 1 in
        if is_overflow a && not offered
        then (if ltb config.max_context_replans charged
            then (
              inl (provider "provider reported context overflow with no compaction available"),
              charged,
            )
            else (inr a, charged))
        else (inr a, replans)
  ]

  -- The compaction that the store asks for; `replans` has been charged.
  unfoldable pub compacted : ReactConfig → Round A → (replans : ℕ) → (ReactError ⊎ Attempt A) × ℕ
  unfolding answered
  compacted config r replans =
      if ltb config.max_context_replans replans
      then (inl compaction_loop, replans)
      else elim r.compaction [
        | inl e ↦ (inl e, replans)
        | inr (completed _) ↦ elim r.plan_again [
          | inl e ↦ (inl (store e), replans)
          | inr true ↦ (inl compaction_loop, replans)
          | inr false ↦ answered config r true replans
        ]
        | inr (aborted_in_stream a) ↦ (inr (aborted_in_stream a), replans)
        | inr truncated ↦ (inl (provider "compaction truncated: malformed-incomplete"), replans)
        | inr context_overflow ↦ (inl (provider "compaction context overflow"), replans)
      ]

  unfoldable pub one_attempt : ReactConfig → Round A → (replans : ℕ) → (ReactError ⊎ Attempt A) × ℕ
  unfolding compacted
  one_attempt config r replans = elim r.plan [
    | inl e ↦ (inl (store e), replans)
    | inr offered ↦
        if offered then compacted config r (replans + 1) else answered config r false replans
  ]

  -- `Attempt::Truncated`: the next rung of the ladder, or the end.
  unfoldable pub retry_truncated : ReactConfig → LoopState → (replans : ℕ) → LoopEnd A ⊎ LoopState
  retry_truncated config s replans =
      let trunc_n = s.trunc_n + 1 in
      let ladder = config.truncation_ladder in
      if ltb config.truncation_attempts trunc_n
      then inl (failed truncation_gave_up)
      else elim (get_elem? ladder (min (trunc_n - 1) (length ladder - 1))) [
        | none ↦ inl panicked
        | some lines ↦
            inr (record {
              trunc_n = trunc_n;
              replans = replans;
              reminders = s.reminders ++ lines ∷ [];
            })
      ]

  -- The body of the loop.
  unfoldable pub turn_round : ReactConfig → Round A → LoopState → LoopEnd A ⊎ LoopState
  unfolding one_attempt retry_truncated
  turn_round config r s =
      let (result, replans) = one_attempt config r s.replans in
      elim result [
        | inl e ↦ inl (failed e)
        | inr (completed a) ↦ inl (assembled a)
        | inr (aborted_in_stream a) ↦ inl (aborted a)
        | inr truncated ↦ retry_truncated config s replans
        | inr context_overflow ↦ inr (record s { replans = replans })
      ]

  -- The loop, from round `i` on, for at most `fuel` rounds.
  unfoldable pub attempt_loop :
      ReactConfig → (ℕ → Round A) → (fuel i : ℕ) → LoopState → Option (LoopEnd A)
  unfolding turn_round
  attempt_loop config rounds zero i s = none
  attempt_loop config rounds (suc fuel) i s = elim (turn_round config (rounds i) s) [
    | inl end ↦ some end
    | inr s' ↦ attempt_loop config rounds fuel (i + 1) s'
  ]

abbrev pub first_state : LoopState
first_state = record { trunc_n = 0; replans = 0; reminders = [] }
