-- ===== src/React/Turn/Ending.antt =====
-- How `run` of crates/kn9t-react/src/turn.rs ends, and within how many turns.
use kn9t.Prelude.{
  ℕ, zero, suc, ◌+◌, ◌≤◌, ◌<◌, ◌≡◌, ◌≢◌, refl, sym, subst, [], ◌++◌, ap, ◌∙◌, Bool, false, Option,
  none, some, ◌⊎◌, inl, inr, Bool-cases, length, arith, if◌then◌else◌,
}
use kn9t.Core.Model.{Price, StopReason}
use kn9t.React.Attempts.{ReactConfig, ReactError}
use kn9t.React.Turn.{TurnOutcome, go_on, idle, failed, TurnInput, RunState, Refusal, execute_turn}
use kn9t.React.Turn.Answered.{transcript}
use kn9t.React.Turn.Effects.{IsSettled}
use kn9t.React.Turn.Settled.{IsPassive}
use kn9t.React.Turn.Run.{RunEnd, stopped, gave_up, end_turn, is_limit, left, run}
use kn9t.React.Turn.Closing.{
  attempts, execute_turn-IsSettled, begin_turn, IsClosed, starts, marks, reason_of,
  IsClosed-at_limit, IsClosed-here, IsClosed-later,
}
use kn9t.Store.Plan.{has_orphan_tool_call}

-- A closed end, or turns left for the fuel.
abbrev IsRun : Option ℕ → (fuel turn : ℕ) → RunState → Option (RunEnd × RunState) → Type 0
IsRun max_turns fuel turn st result =
    ((result ≡ none) × ((m : ℕ) → max_turns ≡ some m → turn ≤ m → turn + fuel ≤ m))
    ⊎ ((r : RunEnd × RunState) × (result ≡ some r)
        × (n : ℕ) × IsClosed turn n st r.0 r.1
        × ((m : ℕ) → max_turns ≡ some m → turn ≤ m → turn + n ≤ m))

some_inj : {A : Type 0} {a b : A} → some a ≡ some b → a ≡ b
some_inj {A} {a} e = ap (λ (o : Option A). elim o [ none ↦ a | some x ↦ x ]) e

-- What `run` does with the outcome of a turn.
abbrev next_of :
    (turn : ℕ)
    → (RunState → Option (RunEnd × RunState))
    → Option (TurnOutcome × RunState)
    → Option (RunEnd × RunState)
next_of turn more none = none
next_of turn more (some (outcome, st')) = elim (left (turn + 1) outcome st') [
  | some end ↦ some end
  | none ↦ more st'
]

from_start :
    (n : ℕ) (st : RunState) (end : RunEnd) (st' : RunState)
    → IsClosed 0 n st end st'
    → st'.live ≡ st.live ++ (starts 0 n ++ marks n (reason_of end))
from_start n st end st' c =
    let e : 0 + n ≡ n = omega arith in
    c.live ∙ ap (λ k. st.live ++ (starts 0 n ++ marks k (reason_of end))) e

below_limit :
    (max_turns : Option ℕ) (turn m : ℕ)
    → is_limit max_turns turn ≡ false
    → max_turns ≡ some m
    → turn ≤ m
    → turn + 1 ≤ m
unfolding is_limit
below_limit max_turns turn m e h le = ground (arith, e, h)

module _ (max_turns : Option ℕ) (turn : ℕ) (st : RunState)
    (unlimited : is_limit max_turns turn ≡ false) (more : RunState → Option (RunEnd × RunState))
    (fuel : ℕ) where
  -- A turn with an outcome, and the rest of the run.
  after_turn :
      (o : TurnOutcome) (st' : RunState)
      → IsSettled [] (begin_turn turn st) (o, st')
      → IsRun max_turns fuel (turn + 1) st' (more st')
      → IsRun max_turns
          (suc fuel)
          turn
          st
          (elim (left (turn + 1) o st') [ some end ↦ some end | none ↦ more st' ])
  unfolding left
  after_turn go_on st' s (inl (e, f)) =
      inl (e, λ m h le. omega (arith, f m h (below_limit max_turns turn m unlimited h le)))
  after_turn go_on st' s (inr (r, e, n, c, b)) = inr (
    r,
    e,
    suc n,
    IsClosed-later turn st n r.0 st' r.1 s.added s.adds (s.answered refl) c,
    λ m h le. omega (arith, b m h (below_limit max_turns turn m unlimited h le)),
  )
  after_turn (idle why) st' s rest = inr (
    (stopped why, end_turn (turn + 1) why st'),
    refl,
    1,
    IsClosed-here turn st (stopped why) st' s.added (ground arith) s.adds (λ _ _. s.answered refl),
    λ m. below_limit max_turns turn m unlimited,
  )
  after_turn (failed e) st' s rest = inr (
    (gave_up e, end_turn (turn + 1) StopReason.aborted st'),
    refl,
    1,
    IsClosed-here turn st (gave_up e) st' s.added (ground arith) s.adds
        (λ why h. absurd (ground (arith, h))),
    λ m. below_limit max_turns turn m unlimited,
  )
  after_turn TurnOutcome.panicked st' s rest = absurd (s.returned refl)

module _ {Value : Type 0} (refuses : Refusal) (price : Price) (config : ReactConfig)
    (ladder : 0 < length config.truncation_ladder) (max_turns : Option ℕ)
    (inputs : ℕ → TurnInput Value) (passive : (n : ℕ) → IsPassive (inputs n)) where
  run_lem :
      (fuel turn : ℕ) (st : RunState)
      → IsRun max_turns fuel turn st
          (run refuses price config max_turns inputs (attempts config) fuel turn st)
  unfolding run
  run_lem zero turn st = inl (refl, λ m h le. omega (arith, le))
  run_lem (suc fuel) turn st = elim (Bool-cases (is_limit max_turns turn)) [
    | inl limit ↦ inr (
      (gave_up ReactError.turn_limit, end_turn turn StopReason.aborted st),
      ground (arith, limit),
      0,
      IsClosed-at_limit turn st,
      λ m h le. omega (arith, le),
    )
    | inr go ↦
        let more = λ (st' : RunState).
          run refuses price config max_turns inputs (attempts config) fuel (turn + 1) st' in
        let after = next_of turn more in
        let limit = some (gave_up ReactError.turn_limit, end_turn turn StopReason.aborted st) in
        let input = inputs (turn + 1) in
        let (r, e, s) =
          execute_turn-IsSettled refuses price config ladder input (passive (turn + 1)) (turn + 1)
            (begin_turn turn st) in
        subst
          (λ (b : Bool). IsRun max_turns (suc fuel) turn st (
            if b
            then limit
            else after (
                execute_turn refuses price config (attempts config) input (turn + 1)
                  (begin_turn turn st))))
          (sym go)
          (subst
            (λ (o : Option (TurnOutcome × RunState)). IsRun max_turns (suc fuel) turn st (after o))
            (sym e)
            (after_turn max_turns turn st go more fuel r.0 r.1 s (run_lem fuel (turn + 1) r.1)))
  ]

  -- If the host's steering and followup messages and the summaries of compactions make no calls, no
  -- tool panics that the calling thread runs, and the truncation ladder has a rung, a run with `max_turns`
  -- stops within that many turns, however hooks, tools on threads, compactor, provider and store answer,
  -- and without a panic; on the live bus it has marked those turns and then, once and last, its end:
  -- `TurnFinishing` before `TurnEnded`, with the number of the last turn and the reason of the end.
  pub run_terminates :
      (m : ℕ) (st : RunState)
      → max_turns ≡ some m
      → (r : RunEnd × RunState) × (run refuses price config max_turns inputs
            (attempts config)
            (suc m)
            0
            st
          ≡ some r)
        × (r.0 ≢ RunEnd.panicked)
        × (n : ℕ) × (n ≤ m)
        × (r.1.live ≡ st.live ++ (starts 0 n ++ marks n (reason_of r.0)))
  run_terminates m st h = elim (run_lem (suc m) 0 st) [
    | inl (e, f) ↦ absurd (omega (arith, f m h (omega arith)))
    | inr (r, e, n, c, b) ↦
        (r, e, c.returned, n, omega (arith, b m h (omega arith)), from_start n st r.0 r.1 c)
  ]

  -- Under the same conditions, with a limit or without: whenever a run stops, its end is marked so.
  pub run-marks :
      (fuel : ℕ) (st : RunState) (end : RunEnd) (st' : RunState)
      → run refuses price config max_turns inputs (attempts config) fuel 0 st ≡ some (end, st')
      → (n : ℕ) × (st'.live ≡ st.live ++ (starts 0 n ++ marks n (reason_of end)))
  run-marks fuel st end st' h = elim (run_lem fuel 0 st) [
    | inl (e, f) ↦ absurd (ground (arith, sym e ∙ h))
    | inr (r, e, n, c, b) ↦ (
      n,
      subst
          (λ (q : RunEnd × RunState). q.1.live ≡ st.live ++ (starts 0 n ++ marks n (reason_of q.0)))
          (some_inj (sym e ∙ h)) (from_start n st r.0 r.1 c),
    )
  ]

  -- If the host's steering and followup messages and the summaries of compactions make no calls, no
  -- tool panics that the calling thread runs, and the truncation ladder has a rung, a run that goes idle, on a log in whose
  -- messages every tool call has a result, leaves such a log, where the summaries of compactions count
  -- as messages and those that they replace still do: cancelled, denied, unknown and abandoned
  -- calls and those of a worker that panicked have a result too.
  pub run_answered :
      (fuel : ℕ) (st : RunState) (why : StopReason) (st' : RunState)
      → run refuses price config max_turns inputs (attempts config) fuel 0 st
        ≡ some (stopped why, st')
      → has_orphan_tool_call (transcript st.stored) ≡ false
      → has_orphan_tool_call (transcript st'.stored) ≡ false
  run_answered fuel st why st' h old = elim (run_lem fuel 0 st) [
    | inl (e, f) ↦ absurd (ground (arith, sym e ∙ h))
    | inr (r, e, n, c, b) ↦
        let q = some_inj (sym e ∙ h) in
        ap (λ (p : RunEnd × RunState). has_orphan_tool_call (transcript p.1.stored)) (sym q)
        ∙ c.answered why (ap (λ (p : RunEnd × RunState). p.0) q) old
  ]
