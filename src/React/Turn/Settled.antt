-- ===== src/React/Turn/Settled.antt =====
-- `execute_turn` of crates/kn9t-react/src/turn.rs, stage by stage: every stage settles what the stages before it
-- have stored. The host's messages, for steering and to follow up, make no calls.
use kn9t.Prelude.{
  Option-cases, inl, inr, ℕ, ◌≡◌, ◌≢◌, refl, sym, ap, ◌∙◌, subst, Bool, true, false, not, Option,
  none, some, List, [], ◌∷◌, ◌++◌, map, any, arith, if◌then◌else◌,
}
use kn9t.Core.Message.{Content, Message}
use kn9t.Core.Model.{Price, StopReason}
use kn9t.Core.Event.{Event, UsageKind}
use kn9t.Plugin.Composed.{NextTurnPatch}
use kn9t.Provider.Assemble.{Assembled}
use kn9t.React.Attempts.{LoopEnd}
use kn9t.React.Tools.{ToolCall, collect_tool_calls}
use kn9t.React.Tools.Dispatch.{run_tool_batch}
use kn9t.React.Tools.Slots.{answer_all}
use kn9t.React.Tools.Batch.{run_tool_batch-answer_all}
use kn9t.React.Tools.Transcript.{
  calls-collect_tool_calls, result_ids-answer_all, call_ids-answer_all,
}
use kn9t.React.Turn.{
  TurnOutcome, go_on, idle, panicked, Compaction, all_compaction_events, compact_all, TurnInput,
  RunState, Refusal, append_event, append_all, and_then, or_none, apply_prepare_next_turn,
  usage_event, record_usage, after_answer, after_tools, tool_message, after_message, after_attempts,
}
use kn9t.React.Turn.Answered.{
  stored_message, transcript, makes_calls, has_orphan-append, has_orphan-pair, has_orphan-quiet,
}
use kn9t.React.Turn.Effects.{
  Adds, Adds-nil, IsSettled, settle_later, settle_failure, settle_done, settle_and_then,
  append_event_lem, append_all_lem,
}
use kn9t.Store.Plan.{call_ids, result_ids, has_orphan_tool_call}

pub record IsPassive {Value : Type 0} (input : TurnInput Value) : Type 0 where
  pub steering : any makes_calls (or_none input.steering) ≡ false
  pub followup : any makes_calls (or_none input.followup) ≡ false
  pub summaries : any makes_calls (map (λ (c : Compaction). c.summary) input.compactions) ≡ false
  pub calm : input.tool_panicked ≡ false

module _ {Value : Type 0} (refuses : Refusal) (input : TurnInput Value)
    (passive : IsPassive input) where
  more_quiet :
      (before ms : List Message) (es : List Event)
      → has_orphan_tool_call before ≡ false
      → any makes_calls ms ≡ false
      → transcript es ≡ ms
      → has_orphan_tool_call (before ++ transcript es) ≡ false
  more_quiet before ms es h q e =
      has_orphan-append before (transcript es) h (ap has_orphan_tool_call e ∙ has_orphan-quiet ms q)

  -- The host's messages, and then an outcome that stores nothing.
  settle_quiet :
      (before ms : List Message) (st : RunState) (o : TurnOutcome) (change : RunState → RunState)
      → o ≢ panicked
      → ((st' : RunState) → Adds st' [] (change st'))
      → has_orphan_tool_call before ≡ false
      → any makes_calls ms ≡ false
      → IsSettled before st (and_then (append_all refuses ms st) (λ st'. (o, change st')))
  settle_quiet before ms st o change p c h q =
      let (es, a, e) = append_all_lem refuses ms st in
      let st' = (append_all refuses ms st).1 in
      settle_and_then before st (append_all refuses ms st) (λ st'. (o, change st')) es a
        (λ r.
          settle_done (before ++ transcript es) st' (change st') o p (c st')
            (more_quiet before ms es h q (e r)))

  followed :
      (before ms : List Message) (a : Assembled) (st : RunState)
      → has_orphan_tool_call before ≡ false
      → any makes_calls ms ≡ false
      → IsSettled before st (elim ms [
        | [] ↦ (idle a.stop, st)
        | m ∷ ms' ↦ and_then (append_all refuses (m ∷ ms') st) (λ st'. (go_on, st'))
      ])
  followed before [] a st h q =
      settle_done before st st (idle a.stop) (ground arith) (Adds-nil st st refl refl) h
  followed before (m ∷ ms) a st h q =
      settle_quiet before (m ∷ ms) st go_on (λ st'. st') (ground arith)
        (λ st'. Adds-nil st' st' refl refl) h q

  stopped_or_followed :
      (before : List Message) (a : Assembled) (st : RunState) (stop_now : Bool)
      → has_orphan_tool_call before ≡ false
      → IsSettled before st (
          if stop_now then (idle a.stop, st) else elim (or_none input.followup) [
            | [] ↦ (idle a.stop, st)
            | m ∷ ms ↦ and_then (append_all refuses (m ∷ ms) st) (λ st'. (go_on, st'))
          ])
  stopped_or_followed before a st true h =
      settle_done before st st (idle a.stop) (ground arith) (Adds-nil st st refl refl) h
  stopped_or_followed before a st false h =
      followed before (or_none input.followup) a st h passive.followup

  after_answer-IsSettled :
      (before : List Message) (turn : ℕ) (a : Assembled) (st : RunState)
      → has_orphan_tool_call before ≡ false
      → IsSettled before st (after_answer refuses input turn a st)
  unfolding after_answer
  after_answer-IsSettled before turn a st h =
      stopped_or_followed before a st
        (elim (input.should_stop a.stop a.usage turn) [ some b ↦ b | none ↦ false ]) h

  Adds-prepare :
      (patch : Option NextTurnPatch) (st : RunState) → Adds st [] (apply_prepare_next_turn patch st)
  unfolding apply_prepare_next_turn
  Adds-prepare none st = Adds-nil st st refl refl
  Adds-prepare (some patch) st = Adds-nil st (apply_prepare_next_turn (some patch) st) refl refl

  cancelled_or_steered :
      (before : List Message) (a : Assembled) (st : RunState) (cancelled : Bool)
      → has_orphan_tool_call before ≡ false
      → IsSettled before st (
          if cancelled
          then (idle StopReason.aborted, st)
          else and_then
              (append_all refuses (or_none input.steering) st)
              (λ st'. (go_on, apply_prepare_next_turn (input.prepare_next a.stop a.usage) st')))
  cancelled_or_steered before a st true h =
      settle_done before st st (idle StopReason.aborted) (ground arith) (Adds-nil st st refl refl) h
  cancelled_or_steered before a st false h =
      settle_quiet before (or_none input.steering) st go_on
        (apply_prepare_next_turn (input.prepare_next a.stop a.usage)) (ground arith)
        (Adds-prepare (input.prepare_next a.stop a.usage)) h passive.steering

  after_tools-IsSettled :
      (before : List Message) (a : Assembled) (st : RunState)
      → has_orphan_tool_call before ≡ false
      → IsSettled before st (after_tools refuses input a st)
  unfolding after_tools
  after_tools-IsSettled before a st = cancelled_or_steered before a st input.cancelled_after_batch

  -- The results of a batch are stored behind the message that asked for them.
  batch-IsSettled :
      (turn : ℕ) (a : Assembled) (st : RunState) (results : List Content)
      → result_ids results ≡ call_ids a.message.content
      → call_ids results ≡ []
      → IsSettled (a.message ∷ []) st (
          and_then
            (append_event refuses (Event.message_appended 0 (tool_message input results)) st)
            (after_tools refuses input a))
  unfolding tool_message transcript stored_message
  batch-IsSettled turn a st results r c =
      let t = tool_message input results in
      let event = Event.message_appended 0 t in
      let (es, adds, e) = append_event_lem refuses event st in
      settle_and_then (a.message ∷ []) st (append_event refuses event st)
        (after_tools refuses input a) es adds
        (λ stored.
          after_tools-IsSettled (a.message ∷ transcript es) a (append_event refuses event st).1 (
            ap (λ l. has_orphan_tool_call (a.message ∷ transcript l)) (e stored)
            ∙ has_orphan-pair a.message t r c))

  called :
      (turn : ℕ) (a : Assembled) (st : RunState) (calls : List ToolCall)
      → map (λ (c : ToolCall). c.id) calls ≡ call_ids a.message.content
      → IsSettled (a.message ∷ []) st (elim calls [
        | [] ↦ after_answer refuses input turn a st
        | c ∷ cs ↦
            elim (if input.tool_panicked
              then none
              else run_tool_batch input.host input.schedule (c ∷ cs)) [
                | none ↦ (panicked, st)
                | some results ↦
                    and_then
                      (append_event refuses
                        (Event.message_appended 0 (tool_message input results))
                        st)
                      (after_tools refuses input a)
              ]
      ])
  unfolding makes_calls
  called turn a st [] e =
      after_answer-IsSettled (a.message ∷ []) turn a st
        (has_orphan-quiet (a.message ∷ []) (ground (arith, sym e)))
  called turn a st (c ∷ cs) e =
      rw (passive.calm, run_tool_batch-answer_all input.host input.schedule (c ∷ cs))
        (batch-IsSettled turn a st (answer_all input.host input.schedule 0 (c ∷ cs))
          (result_ids-answer_all input.host input.schedule 0 (c ∷ cs) ∙ e)
          (call_ids-answer_all input.host input.schedule 0 (c ∷ cs)))

  after_message-IsSettled :
      (turn : ℕ) (a : Assembled) (st : RunState)
      → IsSettled (a.message ∷ []) st (after_message refuses input turn a st)
  unfolding after_message
  after_message-IsSettled turn a st =
      called turn a st (collect_tool_calls a.message.content)
        (calls-collect_tool_calls a.message.content)

  -- The usage is stored between the message and what follows it.
  recorded-IsSettled :
      (price : Price) (turn : ℕ) (a : Assembled) (st : RunState)
      → IsSettled (a.message ∷ []) st (
          and_then
            (record_usage refuses price a.usage UsageKind.main (not a.usage_reported) st)
            (after_message refuses input turn a))
  unfolding record_usage usage_event transcript stored_message
  recorded-IsSettled price turn a st =
      let event = usage_event st.model_ref price a.usage UsageKind.main (not a.usage_reported) in
      let (es, adds, e) = append_event_lem refuses event st in
      settle_and_then (a.message ∷ []) st (append_event refuses event st)
        (after_message refuses input turn a) es adds
        (λ stored.
          subst
            (λ l.
              IsSettled (a.message ∷ transcript l) (append_event refuses event st).1
                (after_message refuses input turn a (append_event refuses event st).1))
            (sym (e stored)) (after_message-IsSettled turn a (append_event refuses event st).1))

  pub after_attempts-IsSettled :
      (price : Price) (turn : ℕ) (end : LoopEnd Assembled) (st : RunState)
      → end ≢ LoopEnd.panicked
      → IsSettled [] st (after_attempts refuses price input turn end st)
  unfolding after_attempts record_usage usage_event transcript stored_message
  after_attempts-IsSettled price turn (LoopEnd.assembled a) st p =
      let event = Event.message_appended 0 a.message in
      let next = λ (st' : RunState).
        and_then (record_usage refuses price a.usage UsageKind.main (not a.usage_reported) st')
          (after_message refuses input turn a) in
      let (es, adds, e) = append_event_lem refuses event st in
      settle_and_then [] st (append_event refuses event st) next es adds (λ stored.
        subst
          (λ l.
            IsSettled (transcript l) (append_event refuses event st).1
              (next (append_event refuses event st).1))
          (sym (e stored)) (recorded-IsSettled price turn a (append_event refuses event st).1))
  after_attempts-IsSettled price turn (LoopEnd.aborted a) st p =
      let event = usage_event st.model_ref price a.usage UsageKind.main (not a.usage_reported) in
      let (es, adds, e) = append_event_lem refuses event st in
      settle_and_then [] st (append_event refuses event st) (λ st'. (idle StopReason.aborted, st'))
        es adds
        (λ stored.
          settle_done (transcript es) (append_event refuses event st).1
            (append_event refuses event st).1 (idle StopReason.aborted) (ground arith)
            (Adds-nil (append_event refuses event st).1 (append_event refuses event st).1 refl refl)
            (ap (λ l. has_orphan_tool_call (transcript l)) (e stored) ∙ has_orphan-quiet [] refl))
  after_attempts-IsSettled price turn (LoopEnd.failed e) st p =
      settle_failure [] st st [] e (Adds-nil st st refl refl)
  after_attempts-IsSettled price turn LoopEnd.panicked st p = absurd (p refl)

  summaries_stored :
      (cs : List Compaction)
      → transcript (all_compaction_events cs) ≡ map (λ (c : Compaction). c.summary) cs
  unfolding all_compaction_events transcript stored_message
  summaries_stored [] = refl
  summaries_stored (c ∷ cs) = elim (Option-cases c.handoff) [
    | inl alone ↦ ground (arith, alone, summaries_stored cs)
    | inr (h, handed) ↦ ground (arith, handed, summaries_stored cs)
  ]

  -- The compactions of the attempts, and then the rest of the turn.
  pub compacted-IsSettled :
      (price : Price) (turn : ℕ) (end : LoopEnd Assembled) (st : RunState)
      → end ≢ LoopEnd.panicked
      → IsSettled [] st
          (after_attempts refuses price input turn end (compact_all input.compactions st))
  unfolding compact_all
  compacted-IsSettled price turn end st p =
      let st' = compact_all input.compactions st in
      let es = all_compaction_events input.compactions in
      let r = after_attempts refuses price input turn end st' in
      let s = after_attempts-IsSettled price turn end st' p in
      let quiet : has_orphan_tool_call (transcript es) ≡ false =
        ap has_orphan_tool_call (summaries_stored input.compactions)
        ∙ has_orphan-quiet (map (λ (c : Compaction). c.summary) input.compactions)
            passive.summaries in
      settle_later [] st st' es r (record { live = refl; stored = refl })
        (record {
          added = s.added;
          adds = s.adds;
          returned = s.returned;
          answered =
              λ h. has_orphan-append (transcript es) (transcript s.added) quiet (s.answered h);
        })
