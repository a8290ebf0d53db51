-- ===== src/Store/Session.antt =====
-- crates/kn9t-store/src/session.rs: `append`, `create_session` and the names of the event kinds.
-- The store's mutex makes each one step on the connection. The JSON text of an event and of content
-- (`serde_json`) are the parameters `to_json` and `content_json`. SQLite may refuse a statement for
-- a reason of its own, such as a full disk: `refuses` says which of the steps of the call it
-- refuses. `SELECT head_seq` is taken to fail on a missing row only, and a ROLLBACK to succeed.
-- An error is the constructor of the text that the program formats.
pub mod Atomic
pub mod Gapless
pub mod Numbering
use kn9t.Prelude.{
  ℕ, ◌+◌, String, Bool, true, false, Option, none, some, is_some, ◌&&◌, List, ◌⊎◌, inl, inr,
  if◌then◌else◌,
}
use kn9t.Prelude.Table.{find, put}
use kn9t.Core.Message.{SessionId, Content, Message}
use kn9t.Core.Event.{Event, seq_of, with_seq}
use kn9t.Store.Database.{
  SessionRow, EventRow, Db, Connection, begin, commit, rollback, insert_event, set_head_seq,
}
use kn9t.Store.Project.{project, write_rows, incr_blob_refs}

unfoldable pub event_kind_name : Event → String
event_kind_name (Event.session_forked _ _) = "SessionForked"
event_kind_name (Event.message_appended _ _) = "MessageAppended"
event_kind_name (Event.model_changed _ _) = "ModelChanged"
event_kind_name (Event.compacted _ _ _) = "Compacted"
event_kind_name (Event.handoff _ _ _ _ _) = "Handoff"
event_kind_name (Event.tools_toggled _ _) = "ToolsToggled"
event_kind_name (Event.usage_recorded _ _ _ _ _ _ _ _) = "UsageRecorded"
event_kind_name (Event.turn_started _) = "TurnStarted"
event_kind_name (Event.text_delta _ _ _) = "TextDelta"
event_kind_name (Event.thinking_delta _ _ _) = "ThinkingDelta"
event_kind_name (Event.tool_args_delta _ _ _) = "ToolArgsDelta"
event_kind_name (Event.tool_started _ _) = "ToolStarted"
event_kind_name (Event.tool_progress _ _) = "ToolProgress"
event_kind_name (Event.tool_finished _ _) = "ToolFinished"
event_kind_name (Event.approval_request _ _ _ _ _) = "ApprovalRequest"
event_kind_name (Event.turn_ended _ _) = "TurnEnded"
event_kind_name (Event.hook_failed _ _ _) = "HookFailed"
event_kind_name (Event.title_changed _) = "TitleChanged"
event_kind_name (Event.error _) = "Error"
event_kind_name (Event.retry_attempt _ _ _ _ _) = "RetryAttempt"
event_kind_name (Event.turn_status _ _) = "TurnStatus"
event_kind_name (Event.plugin_notification _) = "PluginNotification"
event_kind_name (Event.interaction_request _ _ _) = "InteractionRequest"
event_kind_name (Event.ui_directive _ _ _ _) = "UiDirective"
event_kind_name (Event.plugin_declared _ _ _) = "PluginDeclared"
event_kind_name (Event.plugin_state _ _ _) = "PluginState"

pub data StoreErr : Type 0 where
  transient_rejected begin_failed no_session insert_failed write_failed : StoreErr
  blob_ref_failed head_failed commit_failed create_failed : StoreErr

-- What the call returns, the connection after it, and the event that the after-append observer gets.
pub record Appended : Type 0 where
  pub result : StoreErr ⊎ ℕ
  pub conn : Connection
  pub echo : Option (SessionId × Event)

-- The statements of one call that SQLite refuses for a reason of its own.
pub record Refusals : Type 0 where
  pub at_begin : Bool
  pub at_insert : Bool
  pub at_write : Bool
  pub at_blob_refs : Bool
  pub at_head : Bool
  pub at_commit : Bool

unfoldable pub fail : StoreErr → Connection → Appended
fail e c = record { result = inl e; conn = c; echo = none }

-- `?` under a `map_err` or an `if let Err` that rolls back.
unfoldable pub fail_rolled_back : StoreErr → Connection → Appended
unfolding fail
fail_rolled_back e c = fail e (rollback c)

-- `if let Event::MessageAppended { msg, .. } = &event`
unfoldable pub appended_content : Event → Option (List Content)
appended_content (Event.message_appended seq msg) = some msg.content
appended_content e = none

-- The references of an appended message are counted.
unfoldable pub count_refs : (content_json : List Content → String) → Db → Event → Db
unfolding appended_content
count_refs content_json db event = elim (appended_content event) [
  | none ↦ db
  | some content ↦ incr_blob_refs db (content_json content)
]

module _ (to_json : Event → String) (content_json : List Content → String) where
  -- `event` stamped with `seq`, inside the transaction, once `head_seq` is known.
  unfoldable pub append_stamped :
      Refusals → Connection → SessionId → (ts : ℕ) → (seq : ℕ) → (event : Event) → Appended
  unfolding fail fail_rolled_back count_refs
  append_stamped refuses c session ts seq event =
      let row : EventRow = record {
        session_id = session;
        seq = seq;
        ts = ts;
        kind = event_kind_name event;
        payload = to_json event;
      } in
      elim (insert_event c.db row) [
        | none ↦ fail_rolled_back insert_failed c
        | some db1 ↦
            let c1 = record c { db = db1 } in
            let c2 = record c { db = write_rows db1 (project content_json session ts event) } in
            let c3 = record c { db = count_refs content_json c2.db event } in
            let c4 = record c { db = set_head_seq c3.db session seq } in
            if refuses.at_insert
            then fail_rolled_back insert_failed c
            else if refuses.at_write
            then fail_rolled_back write_failed c1
            else if is_some (appended_content event) && refuses.at_blob_refs
            then fail_rolled_back blob_ref_failed c2
            else if refuses.at_head
            then fail_rolled_back head_failed c3
            else if refuses.at_commit
            then fail commit_failed c4
            else record { result = inr seq; conn = commit c4; echo = some (session, event) }
      ]

  unfoldable pub append_begun :
      Refusals → Connection → SessionId → (ts : ℕ) → (event : Event) → Appended
  unfolding append_stamped
  append_begun refuses c session ts event = elim (find c.db.sessions session) [
    | none ↦ fail no_session c
    | some row ↦
        let seq = row.head_seq + 1 in append_stamped refuses c session ts seq (with_seq event seq)
  ]

  unfoldable pub append : Refusals → Connection → SessionId → (ts : ℕ) → (event : Event) → Appended
  unfolding append_begun
  append refuses c session ts event =
      if is_some (seq_of event)
      then elim (begin c) [
        | none ↦ fail begin_failed c
        | some c' ↦
            if refuses.at_begin
            then fail begin_failed c
            else append_begun refuses c' session ts event
      ]
      else fail transient_rejected c

-- `INSERT INTO sessions`; the text of the model is `model_json`.
unfoldable pub create_session :
    Connection → SessionId → (ts : ℕ) → (cwd model_json : String) → StoreErr ⊎ Connection
create_session c id ts cwd model_json = elim (find c.db.sessions id) [
  | some _ ↦ inl create_failed
  | none ↦
      let row : SessionRow = record {
        created_at = ts;
        cwd = cwd;
        origin_session = none;
        model_at_fork = some model_json;
        head_seq = 0;
      } in
      inr (record c { db = record c.db { sessions = put c.db.sessions id row } })
]
