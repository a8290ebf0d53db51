-- ===== src/React/Tools/Transcript.antt =====
-- The ids that a batch's results answer (crates/kn9t-react/src/exec.rs), beside the calls of the message
-- that asked for them (`collect_tool_calls` of turn.rs).
use kn9t.Prelude.{
  ℕ, ◌+◌, ◌≡◌, refl, ap, ◌∙◌, Bool, true, false, Option, none, some, Option-cases, inl, inr, List,
  [], ◌∷◌, map,
}
use kn9t.Core.Message.{Content, text, image, tool_call, tool_result, thinking}
use kn9t.React.Tools.{
  ToolCall, CallPlan, Tool, Host, Schedule, WorkerEnd, returned, panicked, abandoned, get,
  synth_error, finished, authorize, execute_one, launch, collected, call_of, collect_tool_calls,
}
use kn9t.React.Tools.Slots.{answer_by, answer_all}
use kn9t.Store.Plan.{call_ids, result_ids}

pub calls-collect_tool_calls :
    (content : List Content)
    → map (λ (c : ToolCall). c.id) (collect_tool_calls content) ≡ call_ids content
unfolding collect_tool_calls call_of call_ids
calls-collect_tool_calls [] = refl
calls-collect_tool_calls (tool_call id name args ∷ cs) =
    ap (λ t. id ∷ t) (calls-collect_tool_calls cs)
calls-collect_tool_calls (text t ∷ cs) = calls-collect_tool_calls cs
calls-collect_tool_calls (image sha mime ∷ cs) = calls-collect_tool_calls cs
calls-collect_tool_calls (tool_result id content e ∷ cs) = calls-collect_tool_calls cs
calls-collect_tool_calls (thinking t s ∷ cs) = calls-collect_tool_calls cs

module _ {Value : Type 0} (h : Host Value) (s : Schedule) where
  result_ids-execute_one :
      (call : ToolCall) (plan : CallPlan Value) (cancelled : Bool) (rest : List Content)
      → result_ids (execute_one h call plan cancelled ∷ rest) ≡ call.id ∷ result_ids rest
  unfolding execute_one synth_error finished result_ids
  result_ids-execute_one call (CallPlan.deny reason) cancelled rest = refl
  result_ids-execute_one call (CallPlan.execute args) true rest = refl
  result_ids-execute_one call (CallPlan.execute args) false rest =
      elim (Option-cases (get h.registry call.name)) [
        | inl e ↦ rw e refl
        | inr (tool, e) ↦ rw e refl
      ]

  result_ids-collected :
      (w : WorkerEnd) (call : ToolCall) (tool : Tool Value) (args : Value) (rest : List Content)
      → result_ids (collected h w call tool args ∷ rest) ≡ call.id ∷ result_ids rest
  unfolding collected synth_error finished result_ids
  result_ids-collected returned call tool args rest = refl
  result_ids-collected panicked call tool args rest = refl
  result_ids-collected abandoned call tool args rest = refl

  result_ids-answer_by :
      (o : Option (Tool Value × Value)) (i : ℕ) (call : ToolCall) (rest : List Content)
      → result_ids (answer_by h s o i call ∷ rest) ≡ call.id ∷ result_ids rest
  result_ids-answer_by none i call rest =
      result_ids-execute_one call (authorize h call) (s.cancelled_at_call i) rest
  result_ids-answer_by (some (tool, args)) i call rest =
      result_ids-collected (s.worker i) call tool args rest

  -- The batch answers its calls and nothing else, in their order.
  pub result_ids-answer_all :
      (i : ℕ) (calls : List ToolCall)
      → result_ids (answer_all h s i calls) ≡ map (λ (c : ToolCall). c.id) calls
  unfolding result_ids
  result_ids-answer_all i [] = refl
  result_ids-answer_all i (c ∷ cs) =
      result_ids-answer_by (launch h s i c (authorize h c)) i c (answer_all h s (i + 1) cs)
      ∙ ap (λ t. c.id ∷ t) (result_ids-answer_all (i + 1) cs)

module _ {Value : Type 0} (h : Host Value) (s : Schedule) where
  call_ids-execute_one :
      (call : ToolCall) (plan : CallPlan Value) (cancelled : Bool) (rest : List Content)
      → call_ids (execute_one h call plan cancelled ∷ rest) ≡ call_ids rest
  unfolding execute_one synth_error finished call_ids
  call_ids-execute_one call (CallPlan.deny reason) cancelled rest = refl
  call_ids-execute_one call (CallPlan.execute args) true rest = refl
  call_ids-execute_one call (CallPlan.execute args) false rest =
      elim (Option-cases (get h.registry call.name)) [
        | inl e ↦ rw e refl
        | inr (tool, e) ↦ rw e refl
      ]

  call_ids-answer_by :
      (o : Option (Tool Value × Value)) (i : ℕ) (w : WorkerEnd) (call : ToolCall)
      (rest : List Content)
      → s.worker i ≡ w
      → call_ids (answer_by h s o i call ∷ rest) ≡ call_ids rest
  unfolding collected synth_error finished call_ids
  call_ids-answer_by none i w call rest e =
      call_ids-execute_one call (authorize h call) (s.cancelled_at_call i) rest
  call_ids-answer_by (some (tool, args)) i returned call rest e = rw e refl
  call_ids-answer_by (some (tool, args)) i panicked call rest e = rw e refl
  call_ids-answer_by (some (tool, args)) i abandoned call rest e = rw e refl

  -- A batch makes no call.
  pub call_ids-answer_all : (i : ℕ) (calls : List ToolCall) → call_ids (answer_all h s i calls) ≡ []
  unfolding call_ids
  call_ids-answer_all i [] = refl
  call_ids-answer_all i (c ∷ cs) =
      call_ids-answer_by (launch h s i c (authorize h c)) i (s.worker i) c
        (answer_all h s (i + 1) cs) refl
      ∙ call_ids-answer_all (i + 1) cs
