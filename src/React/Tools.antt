-- ===== src/React/Tools.antt =====
-- The tool calls of a turn: `authorize`, `execute_one` and what `run_tool_batch` does with one call
-- (crates/kn9t-react/src/exec.rs), with the hook wrappers of hooks.rs, `ToolRegistry::get` of
-- crates/kn9t-core/src/registry.rs and `collect_tool_calls` of turn.rs. A JSON value (`serde_json`) is an
-- element of `Value`; the tools, the hooks and the approver are what they answer. A hook that panics
-- answers `none`. The user may cancel at any time and a worker thread may panic or never return:
-- a `Schedule` says what each look at the cancel flag finds and how each worker ends. The live
-- events that the calls publish are left out.
pub mod Dispatch
pub mod Slots
pub mod Batch
pub mod Transcript
use Prim.Native.String.{◌++◌ as append}
use kn9t.Prelude.{
  ℕ, zero, suc, ◌+◌, String, Bool, true, false, not, ◌&&◌, ◌||◌, Option, none, some, List, [], ◌∷◌,
  ◌++◌, map, any, all, str_eq, get_elem?, set, ◌==◌, ◌⊎◌, inl, inr, if◌then◌else◌,
}
use kn9t.Prelude.Maybe.{◌>>=◌}
use kn9t.Core.Message.{
  CallId, Content, Contents, text, image, tool_call, tool_result, thinking, nil, cons, Message,
  Role,
}
use kn9t.Core.Hook.{HookVeto}

pub record ToolCall : Type 0 where
  pub id : CallId
  pub name : String
  pub args_json : String

pub data Decision : Type 0 where
  allow ask : Decision
  deny hard_deny : (reason : String) → Decision

pub data CallPlan (Value : Type 0) : Type 0 where
  execute : Value → CallPlan Value
  deny : (reason : String) → CallPlan Value

-- `execute` gives a tool error's text, or the output and whether it is an error.
pub record Tool (Value : Type 0) : Type 0 where
  pub name : String
  pub parallel_safe : Bool
  pub execute : Value → String ⊎ (List Content × Bool)

pub record Host (Value : Type 0) : Type 0 where
  pub disabled_tools : List String
  pub blocked : List String
  pub parse : String → String ⊎ Value
  pub is_object : Value → Bool
  pub value_text : Value → String
  pub before_tool_call : String → Value → Option (HookVeto Value)
  pub after_tool_call : String → Value → List Content → Option (List Content)
  pub approve : ToolCall → (reason : String) → Decision
  pub registry : List (Tool Value)

pub data WorkerEnd : Type 0 where
  returned panicked abandoned : WorkerEnd

-- Each by the index of the call in the batch.
pub record Schedule : Type 0 where
  pub cancelled_at_dispatch : ℕ → Bool
  pub cancelled_at_call : ℕ → Bool
  pub worker : ℕ → WorkerEnd

unfoldable pub from_list : List Content → Contents
from_list [] = nil
from_list (c ∷ cs) = cons c (from_list cs)

unfoldable pub synth_error : CallId → String → Content
synth_error id msg = tool_result id (cons (text msg) nil) true

unfoldable pub is_empty_text : Content → Bool
is_empty_text (text t) = str_eq t ""
is_empty_text c = false

unfoldable pub ensure_nonempty_content : List Content → List Content
unfolding is_empty_text
ensure_nonempty_content content =
    if all is_empty_text content then text "(no output)" ∷ [] else content

-- `collect_tool_calls`, one block.
unfoldable pub call_of : Content → List ToolCall
call_of (tool_call id name args) = record { id = id; name = name; args_json = args } ∷ []
call_of c = []

unfoldable pub collect_tool_calls : List Content → List ToolCall
unfolding call_of
collect_tool_calls [] = []
collect_tool_calls (c ∷ cs) = call_of c ++ collect_tool_calls cs

module _ {Value : Type 0} where
  -- `ToolRegistry::get`: the first tool of the name.
  unfoldable pub get : List (Tool Value) → String → Option (Tool Value)
  get [] name = none
  get (t ∷ ts) name = let rest = get ts name in if str_eq t.name name then some t else rest

module _ {Value : Type 0} (h : Host Value) where
  -- Fail closed.
  unfoldable pub hook_before_tool_call : String → Value → HookVeto Value
  hook_before_tool_call tool args = elim (h.before_tool_call tool args) [
    | some veto ↦ veto
    | none ↦ HookVeto.deny "before_tool_call hook failed; denied (fail closed)"
  ]

  -- Keep the original.
  unfoldable pub hook_after_tool_call : String → Value → List Content → List Content
  hook_after_tool_call tool args result = elim (h.after_tool_call tool args result) [
    | some patched ↦ patched
    | none ↦ result
  ]

  unfoldable pub request_approval : ToolCall → Value → (reason : String) → CallPlan Value
  request_approval call args reason =
      elim (h.approve (record call { args_json = h.value_text args }) reason) [
        | Decision.allow ↦ CallPlan.execute args
        | Decision.deny r ↦ CallPlan.deny r
        | Decision.hard_deny r ↦ CallPlan.deny r
        | Decision.ask ↦ CallPlan.deny "approval required"
      ]

  -- The verdict of the hook on well-formed arguments.
  unfoldable pub judged : ToolCall → Value → CallPlan Value
  unfolding hook_before_tool_call request_approval
  judged call args = elim (hook_before_tool_call call.name args) [
    | HookVeto.allow ↦ CallPlan.execute args
    | HookVeto.deny reason ↦ CallPlan.deny reason
    | HookVeto.ask reason ↦ request_approval call args reason
    | HookVeto.replace new_args ↦ CallPlan.execute new_args
  ]

  unfoldable pub authorize : ToolCall → CallPlan Value
  unfolding judged
  authorize call =
      if any (str_eq call.name) h.disabled_tools
      then CallPlan.deny (
          append "blocked: tool '" (
            append call.name (
              append "' is disabled for this session. Do not retry '"
                (append call.name "'; use another tool or ask the user to re-enable it."))))
      else if any (str_eq call.name) h.blocked
      then CallPlan.deny (
          append "blocked: tool '" (
            append call.name (
              append
                "' belongs to a plugin that is currently stopped. Start the plugin again before retrying '"
                (append call.name "'."))))
      else elim (h.parse call.args_json) [
        | inl e ↦ CallPlan.deny (append "malformed tool args_json: " e)
        | inr args ↦
            if h.is_object args
            then judged call args
            else CallPlan.deny (append "tool args must be a JSON object, got: " (h.value_text args))
      ]

  -- The output of a tool, or the text of its error.
  unfoldable pub output : String ⊎ (List Content × Bool) → List Content × Bool
  output (inl e) = (text e ∷ [], true)
  output (inr o) = o

  -- The result of a tool that has run.
  unfoldable pub finished : Tool Value → CallId → String → Value → Content
  unfolding output hook_after_tool_call ensure_nonempty_content from_list
  finished tool id name args =
      let (inner, is_error) = output (tool.execute args) in
      let patched = hook_after_tool_call name args inner in
      tool_result id (from_list (ensure_nonempty_content patched)) is_error

  unfoldable pub execute_one : ToolCall → CallPlan Value → (cancelled : Bool) → Content
  unfolding finished synth_error get
  execute_one call (CallPlan.deny reason) cancelled = synth_error call.id reason
  execute_one call (CallPlan.execute args) cancelled =
      if cancelled then synth_error call.id "aborted by user" else elim (get h.registry call.name) [
        | none ↦ synth_error call.id (append "unknown tool `" (append call.name "`"))
        | some tool ↦ finished tool call.id call.name args
      ]

  -- The tool that is started on a thread for a call, if one is.
  unfoldable pub launch : Schedule → ℕ → ToolCall → CallPlan Value → Option (Tool Value × Value)
  unfolding get
  launch s i call (CallPlan.deny reason) = none
  launch s i call (CallPlan.execute args) = elim (get h.registry call.name) [
    | none ↦ none
    | some tool ↦
        if tool.parallel_safe && not (s.cancelled_at_dispatch i) then some (tool, args) else none
  ]

  -- What is collected from a worker.
  unfoldable pub collected : WorkerEnd → ToolCall → Tool Value → Value → Content
  unfolding finished synth_error
  collected returned call tool args = finished tool call.id call.name args
  collected panicked call tool args = synth_error call.id "tool thread panicked"
  collected abandoned call tool args =
      synth_error call.id "aborted by user (tool did not stop; abandoned)"
