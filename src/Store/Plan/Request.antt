-- ===== src/Store/Plan/Request.antt =====
-- `plan_request` of crates/kn9t-store/src/plan.rs, with `get_model_spec_for_session` of db.rs and
-- `estimate_tokens` of project.rs: a session's log folded into the request of its next turn. The
-- queries are taken to succeed, and `ORDER BY seq` is an insertion sort. The readers of JSON
-- (`serde_json`), base64, the product of the context window and 0.80 in f64 (`threshold`) and the
-- fresh identifiers are parameters. `tools` is always empty and is left out.
pub mod Sorted
pub mod Parsable
pub mod Usable
use Prim.Native.String.{len, ◌++◌ as append}
use mathlib.Core.Option
use kn9t.Prelude.{
  ℕ, zero, suc, ◌+◌, ◌/◌, String, Bool, false, ◌&&◌, Option, none, some, List, [], ◌∷◌, map, keep,
  length, max, ltb, leb, str_eq, if◌then◌else◌,
}
use kn9t.Prelude.Maybe.{◌>>=◌}
use kn9t.Prelude.Table.{Table, find}
use kn9t.Core.Cache.{Cache, breakpoints}
use kn9t.Core.Message.{
  Role, MsgId, CallId, SessionId, Content, Contents, text, image, tool_call, tool_result, thinking,
  nil, cons, Message,
}
use kn9t.Core.Model.{ModelRef, ModelSpec}
use kn9t.Core.Event.{Event}
use kn9t.Store.Database.{SessionRow, EventRow, MessageRow, UsageRow, Blob, Db}
use kn9t.Store.Project.{strip_prefix}
use kn9t.Store.Snapshot.{order_by_seq}
use kn9t.Store.Deletion.{get_blob}
use kn9t.Store.Live.{Scratch, get_live_tool_progress, ok_flatten}
use kn9t.Store.Plan.{
  CompactSpan, repair_unparseable_tool_args, close_orphan_tool_calls_with, compact_span,
}

pub record RequestPlan : Type 0 where
  pub system : Option String
  pub messages : List Message
  pub cache : List Cache
  pub compact : Option CompactSpan

module _ {A : Type 0} where
  unfoldable pub insert_by : (A → ℕ) → A → List A → List A
  insert_by key a [] = a ∷ []
  insert_by key a (x ∷ xs) =
      let rest = insert_by key a xs in if leb (key a) (key x) then a ∷ x ∷ xs else x ∷ rest

  unfoldable pub order_by : (A → ℕ) → List A → List A
  unfolding insert_by
  order_by key [] = []
  order_by key (x ∷ xs) = insert_by key x (order_by key xs)

  unfoldable pub last : List A → Option A
  last [] = none
  last (x ∷ xs) = elim (last xs) [ none ↦ some x | some y ↦ some y ]

unfoldable pub parse_role : String → Role
parse_role s =
    if str_eq s "system"
    then Role.system
    else if str_eq s "assistant"
    then Role.assistant
    else if str_eq s "tool"
    then Role.tool
    else Role.user

unfoldable pub content_len : Contents → ℕ
content_len nil = 0
content_len (cons (text t) cs) = len t + content_len cs
content_len (cons c cs) = 20 + content_len cs

unfoldable pub estimated_len : Content → ℕ
unfolding content_len
estimated_len (text t) = len t
estimated_len (tool_call id name args_json) = len name + len args_json
estimated_len (tool_result id content is_error) = content_len content
estimated_len (thinking t signature) = len t
estimated_len (image sha256 mime) = 1000

unfoldable pub total_len : List Content → ℕ
unfolding estimated_len
total_len [] = 0
total_len (c ∷ cs) = estimated_len c + total_len cs

-- A quarter of the bytes, and at least 1.
unfoldable pub estimate_tokens : List Content → ℕ
unfolding total_len
estimate_tokens content = max (total_len content / 4) 1

-- `from_str(..).unwrap_or_default()`
unfoldable pub or_empty : Option (List Content) → List Content
or_empty none = []
or_empty (some content) = content

unfoldable pub model_key : ModelRef → String
model_key r = append r.provider (append ":" r.id)

-- The last change of the model that is readable as one.
unfoldable pub changed_model :
    (from_json : String → Option Event) → Option EventRow → Option ModelRef
changed_model from_json none = none
changed_model from_json (some row) = elim (from_json row.payload) [
  | some (Event.model_changed _ model) ↦ some model
  | _ ↦ none
]

-- What plan_request is told of the world outside.
pub record Readers : Type 0 where
  pub parses : String → Bool
  pub read_content : String → Option (List Content)
  pub from_json : String → Option Event
  pub read_model : String → Option ModelRef
  pub base64 : List ℕ → String
  pub threshold : (ctx_window : ℕ) → ℕ
  pub fresh_id : ℕ → MsgId
  pub closing_id : ℕ → MsgId

module _ (r : Readers) where
  unfoldable pub model_at_fork : Db → SessionId → Option ModelRef
  model_at_fork db session = do
    row ← find db.sessions session
    json ← row.model_at_fork
    r.read_model json

  unfoldable pub get_model_spec_for_session : Db → Table ModelSpec → SessionId → Option ModelSpec
  unfolding model_at_fork changed_model model_key order_by_seq last
  get_model_spec_for_session db specs session =
      let is_change =
        λ (e : EventRow). str_eq e.session_id session && str_eq e.kind "ModelChanged" in
      elim (changed_model r.from_json (last (order_by_seq (keep is_change db.events)))) [
        | some model ↦ find specs (model_key model)
        | none ↦ model_at_fork db session >>= λ model. find specs (model_key model)
      ]

  -- A blob that is there is inlined, under the mime type of the block or, failing that, its own.
  unfoldable pub resolve_image : Table Blob → Content → Content
  unfolding strip_prefix get_blob
  resolve_image blobs (image sha256 mime) =
      let hash : String = elim (strip_prefix "sha256:" sha256) [ some h ↦ h | none ↦ sha256 ] in
      elim (get_blob blobs hash) [
        | none ↦ image sha256 mime
        | some (bytes, stored) ↦
            let mime' = if str_eq mime "" then stored else mime in
            image (append "data:" (append mime' (append ";base64," (r.base64 bytes)))) mime'
      ]
  resolve_image blobs c = c

  unfoldable pub resolve_image_blobs : Table Blob → List Content → List Content
  unfolding resolve_image
  resolve_image_blobs blobs = map (resolve_image blobs)

  unfoldable pub estimate_tokens_json : String → ℕ
  unfolding or_empty estimate_tokens
  estimate_tokens_json json = estimate_tokens (or_empty (r.read_content json))

  unfoldable pub message_at : Table Blob → ℕ → MessageRow → Message
  unfolding or_empty resolve_image_blobs parse_role
  message_at blobs i row = record {
    id = r.fresh_id i;
    role = parse_role row.role;
    content = resolve_image_blobs blobs (or_empty (r.read_content row.content));
    silent = false;
  }

  unfoldable pub messages_at : Table Blob → ℕ → List MessageRow → List Message
  unfolding message_at
  messages_at blobs i [] = []
  messages_at blobs i (row ∷ rows) = message_at blobs i row ∷ messages_at blobs (suc i) rows

  -- The last usage record's number and its prompt, or (0, 0).
  unfoldable pub last_usage : Db → SessionId → ℕ × ℕ
  unfolding order_by last
  last_usage db session =
      elim (last
        (order_by (λ u. u.seq) (keep (λ (u : UsageRow). str_eq u.session_id session) db.usage))) [
          | none ↦ (0, 0)
          | some u ↦ (u.seq, u.tokens.input)
        ]

  unfoldable pub new_tokens : ℕ → List MessageRow → ℕ
  unfolding estimate_tokens_json
  new_tokens last_seq [] = 0
  new_tokens last_seq (row ∷ rows) =
      (if ltb last_seq row.seq then estimate_tokens_json row.content else 0)
      + new_tokens last_seq rows

  unfoldable pub rows_of : Db → SessionId → List MessageRow
  unfolding order_by
  rows_of db session =
      order_by (λ m. m.seq) (keep (λ (m : MessageRow). str_eq m.session_id session) db.messages)

  unfoldable pub total_tokens : Db → SessionId → ℕ
  unfolding last_usage new_tokens rows_of
  total_tokens db session =
      let (seq, real) = last_usage db session in real + new_tokens seq (rows_of db session)

  unfoldable pub cache_of : Option ModelSpec → List Message → List Cache
  cache_of none messages = []
  cache_of (some spec) messages = breakpoints messages spec.cache

  -- `none` is the panic of `compact_span`.
  unfoldable pub compaction_of :
      Option ModelSpec → (total : ℕ) → List ℕ → List Message → Option (Option CompactSpan)
  compaction_of none total seqs messages = some none
  compaction_of (some spec) total seqs messages =
      let span = Option.map some (compact_span seqs messages) in
      if leb (r.threshold spec.ctx_window) total && leb 2 (length messages) then span else some none

  unfoldable pub plan_request : Db → Scratch → Table ModelSpec → SessionId → Option RequestPlan
  unfolding get_model_spec_for_session rows_of messages_at total_tokens cache_of compaction_of
      get_live_tool_progress ok_flatten
  plan_request db live specs session =
      let spec = get_model_spec_for_session db specs session in
      let rows = rows_of db session in
      let repaired = repair_unparseable_tool_args r.parses (messages_at db.blobs 0 rows) in
      let salvage = λ (id : CallId). ok_flatten (get_live_tool_progress live session id) in
      do
        (seqs, messages) ←
            close_orphan_tool_calls_with r.closing_id salvage (map (λ m. m.seq) rows) repaired
        compact ← compaction_of spec (total_tokens db session) seqs messages
        some (record {
          system = none;
          messages = messages;
          cache = cache_of spec messages;
          compact = compact;
        })
