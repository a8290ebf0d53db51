-- ===== src/Core/Event.antt =====
-- crates/kn9t-core/src/event.rs: the durable log entries, the live events, and what a publisher
-- may show of them. A `serde_json::Value` is the text of the JSON value, which the program
-- forwards as it is, and a path is its text. The dollar mirrors in f64 (`cost_usd`,
-- `inherited_cost_usd`, `budget_remaining_usd`) are views of the fields in micros and are left out.
pub mod Laws
use kn9t.Prelude.{ℕ, String, Bool, true, false, is_some, Option, none, some, List, ℤ}
use kn9t.Core.Message.{MsgId, CallId, SessionId, Message}
use kn9t.Core.Model.{ModelRef, Price, Tokens, StopReason, Thinking}

pub record SeqRange : Type 0 where
  pub start : ℕ
  pub end : ℕ

pub data UsageKind : Type 0 where
  main compaction subagent title : UsageKind

pub data HookName : Type 0 where
  before_tool_call after_tool_call before_request should_stop_after_turn : HookName
  prepare_next_turn get_steering get_followup get_api_key : HookName

pub data ForkReason : Type 0 where
  fork rewind subagent tree : ForkReason

pub record ForkSnapshot : Type 0 where
  pub origin_session : SessionId
  pub origin_seq : ℕ
  pub reason : ForkReason
  pub inherited_cost_micros : ℤ
  pub inherited_tokens_in : ℕ
  pub inherited_tokens_out : ℕ
  pub inherited_cache_read : ℕ
  pub inherited_messages : ℕ
  pub inherited_ctx_tokens : ℕ
  pub budget_remaining_micros : Option ℤ
  pub model_at_fork : ModelRef
  pub thinking_at_fork : Thinking
  pub cwd_at_fork : String

pub record HandoffSummary : Type 0 where
  pub id : CallId
  pub summary : String

pub data Event : Type 0 where
  -- durable
  session_forked : (seq : ℕ) (fork : ForkSnapshot) → Event
  message_appended : (seq : ℕ) (msg : Message) → Event
  model_changed : (seq : ℕ) (model : ModelRef) → Event
  compacted : (seq : ℕ) (replaced : SeqRange) (summary : Message) → Event
  handoff :
      (seq : ℕ) (keep : List CallId) (summarize : List HandoffSummary) (drop_ids : List CallId)
      (resume_actions : List String)
      → Event
  tools_toggled : (seq : ℕ) (disabled : List String) → Event
  usage_recorded :
      (seq : ℕ) (provider model : String) (kind : UsageKind) (tokens : Tokens)
      (price_snapshot : Price) (cost_micros : ℤ) (estimated : Bool)
      → Event
  -- transient
  turn_started : (turn : ℕ) → Event
  text_delta thinking_delta tool_args_delta : (msg_id : MsgId) (idx : ℕ) (delta : String) → Event
  tool_started : (call_id : CallId) (name : String) → Event
  tool_progress : (call_id : CallId) (note : String) → Event
  tool_finished : (call_id : CallId) (is_error : Bool) → Event
  approval_request : (id : ℕ) (tool args cwd reason : String) → Event
  turn_ended : (turn : ℕ) (stop : StopReason) → Event
  hook_failed : (plugin : String) (hook : HookName) (reason : String) → Event
  title_changed : (title : String) → Event
  error : (message : String) → Event
  retry_attempt : (attempt max : ℕ) (error : String) (delay_ms : ℕ) (retry_kind : String) → Event
  turn_status : (phase message : String) → Event
  plugin_notification : (payload : String) → Event
  interaction_request : (id : ℕ) (plugin payload : String) → Event
  ui_directive : (plugin target op payload : String) → Event
  plugin_declared : (plugin : String) (tools_added tools_removed : List String) → Event
  plugin_state : (plugin state error : String) → Event

-- `Event::seq`
unfoldable pub seq_of : Event → Option ℕ
seq_of (session_forked seq _) = some seq
seq_of (message_appended seq _) = some seq
seq_of (model_changed seq _) = some seq
seq_of (compacted seq _ _) = some seq
seq_of (handoff seq _ _ _ _) = some seq
seq_of (tools_toggled seq _) = some seq
seq_of (usage_recorded seq _ _ _ _ _ _ _) = some seq
seq_of _ = none

unfoldable pub is_durable : Event → Bool
unfolding seq_of
is_durable e = is_some (seq_of e)

-- `Event::with_seq` stamps a durable event and leaves a transient one alone.
unfoldable pub with_seq : Event → ℕ → Event
with_seq (session_forked _ snap) n = session_forked n snap
with_seq (message_appended _ msg) n = message_appended n msg
with_seq (model_changed _ model) n = model_changed n model
with_seq (compacted _ replaced summary) n = compacted n replaced summary
with_seq (handoff _ keep summarize drop_ids actions) n = handoff n keep summarize drop_ids actions
with_seq (tools_toggled _ disabled) n = tools_toggled n disabled
with_seq (usage_recorded _ provider model kind tokens price cost estimated) n =
    usage_recorded n provider model kind tokens price cost estimated
with_seq e n = e

pub data LiveEvent : Type 0 where
  turn_started : (turn : ℕ) → LiveEvent
  text_delta thinking_delta tool_args_delta :
      (msg_id : MsgId) (idx : ℕ) (delta : String) → LiveEvent
  tool_started : (call_id : CallId) (name : String) → LiveEvent
  tool_progress : (call_id : CallId) (note : String) → LiveEvent
  tool_finished : (call_id : CallId) (is_error : Bool) → LiveEvent
  approval_request : (id : ℕ) (tool args cwd reason : String) → LiveEvent
  turn_finishing : (turn : ℕ) (stop : StopReason) → LiveEvent
  turn_ended : (turn : ℕ) (stop : StopReason) → LiveEvent
  hook_failed : (plugin : String) (hook : HookName) (reason : String) → LiveEvent
  title_changed : (title : String) → LiveEvent
  error : (message : String) → LiveEvent
  retry_attempt :
      (attempt max : ℕ) (error : String) (delay_ms : ℕ) (retry_kind : String) → LiveEvent
  turn_status : (phase message : String) → LiveEvent
  plugin_notification : (payload : String) → LiveEvent
  interaction_request : (id : ℕ) (plugin payload : String) → LiveEvent
  ui_directive : (plugin target op payload : String) → LiveEvent

unfoldable pub is_internal : LiveEvent → Bool
is_internal (LiveEvent.turn_finishing _ _) = true
is_internal _ = false

-- `impl From<LiveEvent> for Event`
unfoldable pub from_live : LiveEvent → Event
from_live (LiveEvent.turn_started turn) = Event.turn_started turn
from_live (LiveEvent.text_delta msg_id idx delta) = Event.text_delta msg_id idx delta
from_live (LiveEvent.thinking_delta msg_id idx delta) = Event.thinking_delta msg_id idx delta
from_live (LiveEvent.tool_args_delta msg_id idx delta) = Event.tool_args_delta msg_id idx delta
from_live (LiveEvent.tool_started call_id name) = Event.tool_started call_id name
from_live (LiveEvent.tool_progress call_id note) = Event.tool_progress call_id note
from_live (LiveEvent.tool_finished call_id is_error) = Event.tool_finished call_id is_error
from_live (LiveEvent.approval_request id tool args cwd reason) =
    Event.approval_request id tool args cwd reason
from_live (LiveEvent.turn_ended turn why) = Event.turn_ended turn why
from_live (LiveEvent.hook_failed plugin hook reason) = Event.hook_failed plugin hook reason
from_live (LiveEvent.title_changed text) = Event.title_changed text
from_live (LiveEvent.error text) = Event.error text
from_live (LiveEvent.retry_attempt attempt max cause delay_ms retry_kind) =
    Event.retry_attempt attempt max cause delay_ms retry_kind
from_live (LiveEvent.turn_status phase message) = Event.turn_status phase message
from_live (LiveEvent.plugin_notification payload) = Event.plugin_notification payload
from_live (LiveEvent.interaction_request id plugin payload) =
    Event.interaction_request id plugin payload
from_live (LiveEvent.ui_directive plugin target op payload) =
    Event.ui_directive plugin target op payload
from_live (LiveEvent.turn_finishing turn why) = Event.turn_ended turn why

unfoldable pub to_observable_event : LiveEvent → Option Event
unfolding is_internal from_live
to_observable_event e = elim (is_internal e) [ true ↦ none | false ↦ some (from_live e) ]
