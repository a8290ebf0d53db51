-- ===== src/React/Turn.antt =====
-- One turn of a run: `execute_turn` of crates/kn9t-react/src/turn.rs, with `append`, `record_usage` and the hook
-- wrappers of hooks.rs. The state is the durable events that the store has taken (with the sequence
-- number 0, which the store replaces), the live events, and the model and the thinking level of
-- `RunParams`, which a hook may change. What the outside answers in one turn is a `TurnInput`. The
-- live events of a turn and the reminders, which are not stored, are left out.
pub mod Answered
pub mod Effects
pub mod Settled
pub mod Run
pub mod Closing
pub mod Ending
use kn9t.Prelude.{
  ℕ, zero, suc, ◌+◌, String, Bool, true, false, not, Option, none, some, List, [], ◌∷◌, ◌++◌, leb,
  ◌⊎◌, inl, inr, if◌then◌else◌,
}
use kn9t.Core.Message.{MsgId, CallId, Role, tool, Message, Content}
use kn9t.Core.Model.{ModelRef, Price, StopReason, Thinking}
use kn9t.Core.Event.{SeqRange, HandoffSummary, Event, LiveEvent, UsageKind}
use kn9t.Core.Cost.{cost_micros}
use kn9t.Plugin.Composed.{Usage, NextTurnPatch}
use kn9t.Provider.Assemble.{Assembled}
use kn9t.React.Attempts.{ReactError, ReactConfig, Round, LoopEnd, attempt_loop, first_state}
use kn9t.React.Tools.{Host, Schedule, collect_tool_calls}
use kn9t.React.Tools.Dispatch.{run_tool_batch}

-- `go_on` is `Continue`; a panic leaves the run at once.
pub data TurnOutcome : Type 0 where
  go_on : TurnOutcome
  idle : StopReason → TurnOutcome
  failed : ReactError → TurnOutcome
  panicked : TurnOutcome

pub record HandoffPlan : Type 0 where
  pub keep : List CallId
  pub summarize : List HandoffSummary
  pub drop_ids : List CallId
  pub resume_actions : List String

-- What `run_compaction` appends for a compaction that completes.
pub record Compaction : Type 0 where
  pub replaced : SeqRange
  pub summary : Message
  pub handoff : Option HandoffPlan

unfoldable pub compaction_events : Compaction → List Event
compaction_events c = Event.compacted 0 c.replaced c.summary ∷ elim c.handoff [
  | none ↦ []
  | some h ↦ Event.handoff 0 h.keep h.summarize h.drop_ids h.resume_actions ∷ []
]

unfoldable pub all_compaction_events : List Compaction → List Event
unfolding compaction_events
all_compaction_events [] = []
all_compaction_events (c ∷ cs) = compaction_events c ++ all_compaction_events cs

-- A hook that panics answers `none`. `compactions` are those that complete in the attempts of the turn;
-- one whose events the store refuses fails the attempt. `tool_panicked` says that a tool panics that
-- the calling thread runs, where nothing catches it.
pub record TurnInput (Value : Type 0) : Type 0 where
  pub rounds : ℕ → Round Assembled
  pub host : Host Value
  pub schedule : Schedule
  pub compactions : List Compaction
  pub tool_panicked : Bool
  pub tool_msg_id : MsgId
  pub cancelled_after_batch : Bool
  pub should_stop : StopReason → Usage → ℕ → Option Bool
  pub prepare_next : StopReason → Usage → Option NextTurnPatch
  pub steering : Option (List Message)
  pub followup : Option (List Message)

pub record RunState : Type 0 where
  pub stored : List Event
  pub live : List LiveEvent
  pub model_ref : ModelRef
  pub thinking : Thinking

-- What the store says of the next event: `some e` refuses it.
abbrev pub Refusal : Type 0
Refusal = List Event → Event → Option String

unfoldable pub emit_live : LiveEvent → RunState → RunState
emit_live e st = record st { live = st.live ++ e ∷ [] }

-- `none` where the event is stored, or the error.
unfoldable pub take_in : Option String → Event → RunState → Option ReactError × RunState
take_in (some e) event st = (some (ReactError.store e), st)
take_in none event st = (none, record st { stored = st.stored ++ event ∷ [] })

unfoldable pub append_event : Refusal → Event → RunState → Option ReactError × RunState
unfolding take_in
append_event refuses event st = take_in (refuses st.stored event) event st

unfoldable pub or_fail :
    Option ReactError × RunState
    → (RunState → Option ReactError × RunState)
    → Option ReactError × RunState
or_fail (some e, st) next = (some e, st)
or_fail (none, st) next = next st

-- Up to the first message that the store refuses.
unfoldable pub append_all : Refusal → List Message → RunState → Option ReactError × RunState
unfolding append_event or_fail
append_all refuses [] st = (none, st)
append_all refuses (m ∷ ms) st =
    or_fail (append_event refuses (Event.message_appended 0 m) st) (append_all refuses ms)

unfoldable pub usage_event : ModelRef → Price → Usage → UsageKind → (estimated : Bool) → Event
usage_event model price usage kind estimated =
    Event.usage_recorded 0 model.provider model.id kind usage.tokens price
      (cost_micros usage.tokens price) estimated

unfoldable pub record_usage :
    Refusal
    → Price
    → Usage
    → UsageKind
    → (estimated : Bool) → RunState
    → Option ReactError × RunState
unfolding append_event
record_usage refuses price usage kind estimated st =
    append_event refuses (usage_event st.model_ref price usage kind estimated) st

unfoldable pub compact_all : List Compaction → RunState → RunState
unfolding all_compaction_events
compact_all cs st = record st { stored = st.stored ++ all_compaction_events cs }

-- The rest of a turn whose stage may fail: `?`.
unfoldable pub and_then :
    Option ReactError × RunState → (RunState → TurnOutcome × RunState) → TurnOutcome × RunState
and_then (some e, st) next = (failed e, st)
and_then (none, st) next = next st

abbrev pub or_none : Option (List Message) → List Message
or_none none = []
or_none (some ms) = ms

unfoldable pub apply_prepare_next_turn : Option NextTurnPatch → RunState → RunState
apply_prepare_next_turn none st = st
apply_prepare_next_turn (some patch) st = record st {
  thinking = elim patch.thinking [ some t ↦ t | none ↦ st.thinking ];
  model_ref = elim patch.model [ some m ↦ m | none ↦ st.model_ref ];
}

unfoldable pub tool_message : {Value : Type 0} → TurnInput Value → List Content → Message
tool_message input results = record {
  id = input.tool_msg_id;
  role = tool;
  content = results;
  silent = false;
}

module _ {Value : Type 0} (refuses : Refusal) where
  -- No tool calls.
  unfoldable pub after_answer :
      TurnInput Value → (turn : ℕ) → Assembled → RunState → TurnOutcome × RunState
  unfolding append_all and_then
  after_answer input turn a st =
      let stop_now : Bool = elim (input.should_stop a.stop a.usage turn) [
        | some b ↦ b
        | none ↦ false
      ] in
      if stop_now then (idle a.stop, st) else elim (or_none input.followup) [
        | [] ↦ (idle a.stop, st)
        | m ∷ ms ↦ and_then (append_all refuses (m ∷ ms) st) (λ st'. (go_on, st'))
      ]

  -- The results are stored; the steering messages follow unless the user has cancelled.
  unfoldable pub after_tools : TurnInput Value → Assembled → RunState → TurnOutcome × RunState
  unfolding append_all and_then apply_prepare_next_turn
  after_tools input a st =
      if input.cancelled_after_batch
      then (idle StopReason.aborted, st)
      else and_then (append_all refuses (or_none input.steering) st)
          (λ st'. (go_on, apply_prepare_next_turn (input.prepare_next a.stop a.usage) st'))

  -- The message and its usage are stored.
  unfoldable pub after_message :
      TurnInput Value → (turn : ℕ) → Assembled → RunState → TurnOutcome × RunState
  unfolding after_answer after_tools append_event and_then tool_message
  after_message input turn a st = elim (collect_tool_calls a.message.content) [
    | [] ↦ after_answer input turn a st
    | c ∷ cs ↦
        elim (if input.tool_panicked
          then none
          else run_tool_batch input.host input.schedule (c ∷ cs)) [
            | none ↦ (panicked, st)
            | some results ↦
                and_then
                  (append_event refuses (Event.message_appended 0 (tool_message input results)) st)
                  (after_tools input a)
          ]
  ]

module _ {Value : Type 0} (refuses : Refusal) (price : Price) where
  unfoldable pub after_attempts :
      TurnInput Value → (turn : ℕ) → LoopEnd Assembled → RunState → TurnOutcome × RunState
  unfolding after_message append_event record_usage and_then
  after_attempts input turn (LoopEnd.assembled a) st =
      and_then (append_event refuses (Event.message_appended 0 a.message) st) (λ st'.
        and_then (record_usage refuses price a.usage UsageKind.main (not a.usage_reported) st')
          (after_message refuses input turn a))
  after_attempts input turn (LoopEnd.aborted a) st =
      and_then (record_usage refuses price a.usage UsageKind.main (not a.usage_reported) st)
        (λ st'. (idle StopReason.aborted, st'))
  after_attempts input turn (LoopEnd.failed e) st = (failed e, st)
  after_attempts input turn LoopEnd.panicked st = (panicked, st)

  -- `none` where the attempts take more than `fuel` rounds.
  unfoldable pub execute_turn :
      ReactConfig
      → (fuel : ℕ) → TurnInput Value
      → (turn : ℕ) → RunState
      → Option (TurnOutcome × RunState)
  unfolding after_attempts compact_all
  execute_turn config fuel input turn st =
      elim (attempt_loop config input.rounds fuel 0 first_state) [
        | none ↦ none
        | some end ↦ some (after_attempts input turn end (compact_all input.compactions st))
      ]
