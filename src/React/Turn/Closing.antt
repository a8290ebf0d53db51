-- ===== src/React/Turn/Closing.antt =====
-- How `run` of crates/kn9t-react/src/turn.rs is left after a turn: the marks on the live bus and the transcript.
use kn9t.Prelude.{
  ℕ, zero, suc, ◌+◌, ◌<◌, ◌≡◌, ◌≢◌, sym, ap, ◌∙◌, false, Option, none, some, List, [], ◌∷◌, ◌++◌,
  append_assoc, length, arith,
}
use kn9t.Core.Model.{Price, StopReason}
use kn9t.Core.Event.{Event, LiveEvent}
use kn9t.Provider.Assemble.{Assembled}
use kn9t.React.Attempts.{ReactConfig, ReactError, first_state, LoopEnd}
use kn9t.React.Attempts.Bounds.{attempt_loop_terminates}
use kn9t.React.Attempts.Ladder.{attempt_loop_in_bounds}
use kn9t.React.Turn.{
  TurnOutcome, TurnInput, RunState, Refusal, emit_live, after_attempts, compact_all, execute_turn,
}
use kn9t.React.Turn.Answered.{transcript, transcript-append, has_orphan-append}
use kn9t.React.Turn.Effects.{Adds, IsSettled}
use kn9t.React.Turn.Settled.{IsPassive, compacted-IsSettled}
use kn9t.React.Turn.Run.{RunEnd, stopped, gave_up, end_turn}
use kn9t.Store.Plan.{has_orphan_tool_call}

-- The marks of `n` turns that begin after turn `turn`.
abbrev pub starts : (turn n : ℕ) → List LiveEvent
starts turn zero = []
starts turn (suc n) = LiveEvent.turn_started (turn + 1) ∷ starts (turn + 1) n

abbrev pub marks : (turn : ℕ) → StopReason → List LiveEvent
marks turn reason = LiveEvent.turn_finishing turn reason ∷ LiveEvent.turn_ended turn reason ∷ []

-- The reason that a run's end gives.
abbrev pub reason_of : RunEnd → StopReason
reason_of (stopped why) = why
reason_of (gave_up e) = StopReason.aborted
reason_of RunEnd.panicked = StopReason.aborted

-- What the run leaves after `n` more turns.
pub record IsClosed (turn turns : ℕ) (st : RunState) (end : RunEnd) (st' : RunState) : Type 0 where
  pub returned : end ≢ RunEnd.panicked
  pub live : st'.live ≡ st.live ++ (starts turn turns ++ marks (turn + turns) (reason_of end))
  pub answered :
      (why : StopReason)
      → end ≡ stopped why
      → has_orphan_tool_call (transcript st.stored) ≡ false
      → has_orphan_tool_call (transcript st'.stored) ≡ false

abbrev pub attempts : ReactConfig → ℕ
attempts config = suc (config.truncation_attempts + config.max_context_replans)

module _ {Value : Type 0} (refuses : Refusal) (price : Price) (config : ReactConfig)
    (ladder : 0 < length config.truncation_ladder) (input : TurnInput Value)
    (passive : IsPassive input) where
  -- Every turn has an outcome.
  pub execute_turn-IsSettled :
      (turn : ℕ) (st : RunState)
      → (r : TurnOutcome × RunState) × (execute_turn refuses price config
            (attempts config)
            input
            turn
            st
          ≡ some r)
        × IsSettled [] st r
  unfolding execute_turn
  execute_turn-IsSettled turn st =
      let (end, e) = attempt_loop_terminates config input.rounds in
      let in_bounds =
        attempt_loop_in_bounds config ladder input.rounds (attempts config) 0 first_state in
      (
        after_attempts refuses price input turn end (compact_all input.compactions st),
        ap
            (λ (o : Option (LoopEnd Assembled)). elim o [
              | none ↦ none
              | some end ↦
                  some
                    (after_attempts refuses price input turn end (compact_all input.compactions st))
            ])
            e,
        compacted-IsSettled refuses input passive price turn end st
            (λ p. in_bounds (e ∙ ap some p)),
      )

live-end_turn :
    (turn : ℕ) (why : StopReason) (st : RunState)
    → (end_turn turn why st).live ≡ st.live ++ marks turn why
unfolding end_turn emit_live
live-end_turn turn why st =
    append_assoc st.live (LiveEvent.turn_finishing turn why ∷ [])
      (LiveEvent.turn_ended turn why ∷ [])

-- The store's transcript behind one that answers its calls.
grown_answered :
    (st st' : RunState) (es : List Event)
    → st'.stored ≡ st.stored ++ es
    → has_orphan_tool_call (transcript es) ≡ false
    → has_orphan_tool_call (transcript st.stored) ≡ false
    → has_orphan_tool_call (transcript st'.stored) ≡ false
grown_answered st st' es e new old =
    ap (λ l. has_orphan_tool_call (transcript l)) e
    ∙ ap has_orphan_tool_call (transcript-append st.stored es)
    ∙ has_orphan-append (transcript st.stored) (transcript es) old new

abbrev pub begin_turn : ℕ → RunState → RunState
begin_turn turn st = emit_live (LiveEvent.turn_started (turn + 1)) st

module _ (turn : ℕ) (st : RunState) where
  pub IsClosed-at_limit :
      IsClosed turn 0 st (gave_up ReactError.turn_limit) (end_turn turn StopReason.aborted st)
  unfolding end_turn emit_live
  IsClosed-at_limit =
      let e : turn + 0 ≡ turn = omega arith in
      record {
        returned = ground arith;
        live =
            live-end_turn turn StopReason.aborted st
            ∙ ap (λ n. st.live ++ marks n StopReason.aborted) (sym e);
        answered = λ why h. absurd (ground (arith, h));
      }

  pub IsClosed-here :
      (end : RunEnd) (st' : RunState) (es : List Event)
      → end ≢ RunEnd.panicked
      → Adds (begin_turn turn st) es st'
      → ((why : StopReason) → end ≡ stopped why → has_orphan_tool_call (transcript es) ≡ false)
      → IsClosed turn 1 st end (end_turn (turn + 1) (reason_of end) st')
  unfolding end_turn emit_live
  IsClosed-here end st' es p a h = record {
    returned = p;
    live =
        live-end_turn (turn + 1) (reason_of end) st'
        ∙ ap (λ l. l ++ marks (turn + 1) (reason_of end)) a.live
        ∙ append_assoc st.live (LiveEvent.turn_started (turn + 1) ∷ [])
            (marks (turn + 1) (reason_of end));
    answered = λ why e old. grown_answered st st' es a.stored (h why e) old;
  }

  pub IsClosed-later :
      (n : ℕ) (end : RunEnd) (st' st'' : RunState) (es : List Event)
      → Adds (begin_turn turn st) es st'
      → has_orphan_tool_call (transcript es) ≡ false
      → IsClosed (turn + 1) n st' end st''
      → IsClosed turn (suc n) st end st''
  unfolding emit_live
  IsClosed-later n end st' st'' es a new c =
      let e : turn + 1 + n ≡ turn + suc n = omega arith in
      let more = starts (turn + 1) n in
      record {
        returned = c.returned;
        live =
            c.live
            ∙ ap (λ l. l ++ (more ++ marks (turn + 1 + n) (reason_of end))) a.live
            ∙ append_assoc st.live (LiveEvent.turn_started (turn + 1) ∷ [])
                (more ++ marks (turn + 1 + n) (reason_of end))
            ∙ ap
                (λ n.
                  st.live
                  ++ (LiveEvent.turn_started (turn + 1) ∷ (more ++ marks n (reason_of end))))
                e;
        answered = λ why h old. c.answered why h (grown_answered st st' es a.stored new old);
      }
