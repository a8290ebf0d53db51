-- ===== src/React/Turn/Run.antt =====
-- `run` and `end_turn` of crates/kn9t-react/src/turn.rs. Of the live events of a run those that mark its
-- turns are kept. The cancel handle is in what each turn is told.
use kn9t.Prelude.{ℕ, zero, suc, ◌+◌, Bool, false, Option, none, some, leb, if◌then◌else◌}
use kn9t.Core.Model.{Price, StopReason}
use kn9t.Core.Event.{LiveEvent}
use kn9t.React.Attempts.{ReactError, ReactConfig}
use kn9t.React.Turn.{
  TurnOutcome, go_on, idle, failed, TurnInput, RunState, Refusal, emit_live, execute_turn,
}

pub data RunEnd : Type 0 where
  stopped : StopReason → RunEnd
  gave_up : ReactError → RunEnd
  panicked : RunEnd

unfoldable pub end_turn : (turn : ℕ) → StopReason → RunState → RunState
unfolding emit_live
end_turn turn reason st =
    emit_live (LiveEvent.turn_ended turn reason)
      (emit_live (LiveEvent.turn_finishing turn reason) st)

-- `turn >= max_turns`
unfoldable pub is_limit : Option ℕ → (turn : ℕ) → Bool
is_limit none turn = false
is_limit (some max_turns) turn = leb max_turns turn

-- How the run is left after a turn, if it is.
unfoldable pub left : (turn : ℕ) → TurnOutcome → RunState → Option (RunEnd × RunState)
unfolding end_turn
left turn go_on st = none
left turn (idle why) st = some (stopped why, end_turn turn why st)
left turn (failed e) st = some (gave_up e, end_turn turn StopReason.aborted st)
left turn TurnOutcome.panicked st = some (RunEnd.panicked, st)

module _ {Value : Type 0} (refuses : Refusal) (price : Price) (config : ReactConfig)
    (max_turns : Option ℕ) (inputs : ℕ → TurnInput Value) where
  -- Turn after turn, at most `fuel` of them, each with at most `rounds` attempts.
  unfoldable pub run : (rounds fuel turn : ℕ) → RunState → Option (RunEnd × RunState)
  unfolding is_limit left emit_live execute_turn
  run rounds zero turn st = none
  run rounds (suc fuel) turn st =
      if is_limit max_turns turn
      then some (gave_up ReactError.turn_limit, end_turn turn StopReason.aborted st)
      else elim (execute_turn refuses price config rounds (inputs (turn + 1)) (turn + 1)
          (emit_live (LiveEvent.turn_started (turn + 1)) st)) [
            | none ↦ none
            | some (outcome, st') ↦ elim (left (turn + 1) outcome st') [
              | some end ↦ some end
              | none ↦ run rounds fuel (turn + 1) st'
            ]
          ]
