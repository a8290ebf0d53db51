-- ===== src/Store/Fork.antt =====
-- crates/kn9t-store/src/fork.rs: a session that begins with a copy of another's log. The store's mutex makes
-- a fork one step on the connection. `serde_json` is the parameters `to_json`, `of_json`, `content_json`,
-- `model_json` and `model_of_json`: the members `seq` and `replaced` that the program edits in the JSON value of
-- a payload are those of the event that it encodes. SQLite is taken to refuse a taken key and a BEGIN in a
-- transaction; `refused` says that it refuses the BEGIN for a reason of its own, such as another process that
-- writes, or that the lock is poisoned. `none` is success, and an error is the constructor of the text that the program
-- formats; no error path ends the transaction. The f64 mirrors, and the columns of a session that
-- `SessionRow` leaves out, are left out.
pub mod Copies
pub mod Gapless
pub mod Wedged
pub mod Succeeds
use kn9t.Prelude.{
  ℕ, zero, suc, ◌+◌, String, Bool, true, false, not, ◌&&◌, ◌||◌, Option, none, some, List, [], ◌∷◌,
  ◌++◌, map, keep, any, length, leb, ltb, ◌==◌, str_eq, if◌then◌else◌, ℤ, pos, ◌+ℤ◌, max,
}
use kn9t.Prelude.Table.{Table, find, put}
use kn9t.Core.Message.{SessionId, Content}
use kn9t.Core.Model.{ModelRef, Thinking}
use kn9t.Core.Event.{Event, SeqRange, ForkReason, ForkSnapshot, with_seq}
use kn9t.Store.Database.{
  SessionRow, EventRow, MessageRow, UsageRow, Db, Connection, begin, commit, insert_event,
  set_head_seq,
}
use kn9t.Store.Project.{project, write_rows}
use kn9t.Store.Session.{event_kind_name}
use kn9t.Store.Snapshot.{is_negative, order_by_seq}

pub data ForkErr : Type 0 where
  begin_fork fork_model no_model create_fork insert_forked : ForkErr
  remap_parse insert_copied decode_copied : ForkErr

-- `seq<=?2` with the bound `as i64`; a number of a row is not negative.
abbrev pub at_most : (bound seq : ℕ) → Bool
at_most bound seq = not (is_negative bound) && leb seq bound

-- `session_id=?1 AND seq<=?2`
unfoldable pub is_inherited : (session : SessionId) (origin_seq : ℕ) → UsageRow → Bool
is_inherited session origin_seq row = str_eq row.session_id session && at_most origin_seq row.seq

unfoldable pub sum_micros : List UsageRow → ℤ
sum_micros [] = pos 0
sum_micros (row ∷ rows) = row.cost_micros +ℤ sum_micros rows

unfoldable pub sum_by : (UsageRow → ℕ) → List UsageRow → ℕ
sum_by field [] = 0
sum_by field (row ∷ rows) = field row + sum_by field rows

-- `ORDER BY seq DESC LIMIT 1`, and 0 where there is no row.
unfoldable pub last_input : (best : Option UsageRow) → List UsageRow → ℕ
last_input none [] = 0
last_input (some best) [] = best.tokens.input
last_input none (row ∷ rows) = last_input (some row) rows
last_input (some best) (row ∷ rows) =
    last_input (some (if ltb best.seq row.seq then row else best)) rows

unfoldable pub is_inherited_message : (session : SessionId) (origin_seq : ℕ) → MessageRow → Bool
is_inherited_message session origin_seq row =
    str_eq row.session_id session && at_most origin_seq row.seq

-- What the call says of the fork.
pub record ForkRequest : Type 0 where
  pub origin : SessionId
  pub new_id : SessionId
  pub origin_seq : ℕ
  pub reason : ForkReason
  pub budget_remaining_micros : Option ℤ
  pub cwd : String
  pub ts : ℕ

unfoldable pub fork_snapshot : Db → ForkRequest → ModelRef → ForkSnapshot
unfolding is_inherited sum_micros sum_by last_input is_inherited_message
fork_snapshot db r model =
    let rows = keep (is_inherited r.origin r.origin_seq) db.usage in
    record {
      origin_session = r.origin;
      origin_seq = r.origin_seq;
      reason = r.reason;
      inherited_cost_micros = sum_micros rows;
      inherited_tokens_in = sum_by (λ u. u.tokens.input) rows;
      inherited_tokens_out = sum_by (λ u. u.tokens.output) rows;
      inherited_cache_read = sum_by (λ u. u.tokens.cache_read) rows;
      inherited_messages = length (keep (is_inherited_message r.origin r.origin_seq) db.messages);
      inherited_ctx_tokens = last_input none rows;
      budget_remaining_micros = r.budget_remaining_micros;
      model_at_fork = model;
      thinking_at_fork = Thinking.off;
      cwd_at_fork = r.cwd;
    }

-- `kind IN (...)`
unfoldable pub is_copied_kind : String → Bool
is_copied_kind kind =
    str_eq kind "MessageAppended" || str_eq kind "ModelChanged" || str_eq kind "Compacted"

unfoldable pub is_copied : (session : SessionId) (origin_seq : ℕ) → EventRow → Bool
unfolding is_copied_kind
is_copied session origin_seq row =
    str_eq row.session_id session && at_most origin_seq row.seq && is_copied_kind row.kind

unfoldable pub copy_rows : Db → ForkRequest → List EventRow
unfolding is_copied order_by_seq
copy_rows db r = order_by_seq (keep (is_copied r.origin r.origin_seq) db.events)

-- `seq_map`: the row at index `i` is `i + 1`; a later entry replaces an earlier one.
unfoldable pub seq_map : (i : ℕ) → List EventRow → ℕ → Option ℕ
seq_map i [] seq = none
seq_map i (row ∷ rows) seq =
    let rest = seq_map (i + 1) rows seq in
    elim rest [ some n ↦ some n | none ↦ if row.seq == seq then some (i + 1) else none ]

-- `seq_map.get(&s).copied().unwrap_or(s)`
unfoldable pub mapped : (ℕ → Option ℕ) → ℕ → ℕ
mapped seqs seq = elim (seqs seq) [ some n ↦ n | none ↦ seq ]

unfoldable pub remap_event_seq : Event → (new_seq : ℕ) → (ℕ → Option ℕ) → Event
unfolding mapped
remap_event_seq (Event.compacted seq replaced summary) new_seq seqs =
    Event.compacted new_seq
      (record { start = mapped seqs replaced.start; end = mapped seqs replaced.end }) summary
remap_event_seq e new_seq seqs = with_seq e new_seq

unfoldable pub copied_row :
    (to_json : Event → String) → (new_id : SessionId) → EventRow → (new_seq : ℕ) → Event → EventRow
copied_row to_json new_id row new_seq event = record {
  session_id = new_id;
  seq = new_seq;
  ts = row.ts;
  kind = row.kind;
  payload = to_json event;
}

-- `?`
unfoldable pub or_stop : Option ForkErr × Db → (Db → Option ForkErr × Db) → Option ForkErr × Db
or_stop (some e, db) next = (some e, db)
or_stop (none, db) next = next db

module _ (to_json : Event → String) (of_json : String → Option Event)
    (content_json : List Content → String) where
  -- The body of the loop, for the row that gets the number `new_seq`.
  unfoldable pub copy_event :
      (new_id : SessionId) → (ℕ → Option ℕ) → Db → EventRow → (new_seq : ℕ) → Option ForkErr × Db
  unfolding copied_row remap_event_seq
  copy_event new_id seqs db row new_seq = elim (of_json row.payload) [
    | none ↦ (some remap_parse, db)
    | some event ↦
        let new_row = copied_row to_json new_id row new_seq (remap_event_seq event new_seq seqs) in
        elim (insert_event db new_row) [
          | none ↦ (some insert_copied, db)
          | some db' ↦ elim (of_json new_row.payload) [
            | none ↦ (some decode_copied, db')
            | some event' ↦ (none, write_rows db' (project content_json new_id row.ts event'))
          ]
        ]
  ]

  -- The loop, from the row at index `i` on.
  unfoldable pub copy_events :
      (new_id : SessionId) → (ℕ → Option ℕ) → (i : ℕ) → List EventRow → Db → Option ForkErr × Db
  unfolding copy_event or_stop
  copy_events new_id seqs i [] db = (none, db)
  copy_events new_id seqs i (row ∷ rows) db =
      or_stop (copy_event new_id seqs db row (i + 1)) (copy_events new_id seqs (i + 1) rows)

-- The row of the `SessionForked` event.
unfoldable pub forked_row : (to_json : Event → String) → ForkRequest → ForkSnapshot → EventRow
forked_row to_json r snap = record {
  session_id = r.new_id;
  seq = 0;
  ts = r.ts;
  kind = "SessionForked";
  payload = to_json (Event.session_forked 0 snap);
}

unfoldable pub fork_row : (model_json : ModelRef → String) → ForkRequest → ModelRef → SessionRow
fork_row model_json r model = record {
  created_at = r.ts;
  cwd = r.cwd;
  origin_session = some r.origin;
  model_at_fork = some (model_json model);
  head_seq = 0;
}

-- `INSERT INTO sessions`
unfoldable pub insert_session : Db → SessionId → SessionRow → Option Db
insert_session db id row = elim (find db.sessions id) [
  | some _ ↦ none
  | none ↦ some (record db { sessions = put db.sessions id row })
]

module _ (to_json : Event → String) (model_json : ModelRef → String)
    (model_of_json : String → Option ModelRef) where
  -- The rows of the fork, once its model is known.
  unfoldable pub fork_head : Db → ForkRequest → ModelRef → Option ForkErr × Db
  unfolding fork_snapshot insert_session fork_row forked_row
  fork_head db r model = elim (insert_session db r.new_id (fork_row model_json r model)) [
    | none ↦ (some create_fork, db)
    | some db' ↦ elim (insert_event db' (forked_row to_json r (fork_snapshot db r model))) [
      | none ↦ (some insert_forked, db')
      | some db'' ↦ (none, db'')
    ]
  ]

  unfoldable pub fork_begin : Db → ForkRequest → Option ForkErr × Db
  unfolding fork_head
  fork_begin db r = elim (find db.sessions r.origin) [
    | none ↦ (some fork_model, db)
    | some row ↦ elim row.model_at_fork [
      | none ↦ (some no_model, db)
      | some json ↦ elim (model_of_json json) [
        | none ↦ (some no_model, db)
        | some model ↦ fork_head db r model
      ]
    ]
  ]

-- What is left of a transaction that an error leaves open, or its COMMIT.
unfoldable pub ended : Connection → Option ForkErr × Db → Option ForkErr × Connection
ended c (some e, db) = (some e, record c { db = db })
ended c (none, db) = (none, commit (record c { db = db }))

unfoldable pub begin_unless : (refused : Bool) → Connection → Option Connection
begin_unless refused c = if refused then none else begin c

module _ (to_json : Event → String) (of_json : String → Option Event)
    (content_json : List Content → String) (model_json : ModelRef → String)
    (model_of_json : String → Option ModelRef) where
  -- The copy, and `head_seq`.
  unfoldable pub copied : ForkRequest → Db → Option ForkErr × Db
  unfolding copy_rows copy_events seq_map or_stop
  copied r db =
      let rows = copy_rows db r in
      or_stop (copy_events to_json of_json content_json r.new_id (seq_map 0 rows) 0 rows db)
        (λ db'. (none, set_head_seq db' r.new_id (length rows)))

  unfoldable pub fork_session :
      (refused : Bool) → Connection → ForkRequest → Option ForkErr × Connection
  unfolding begin_unless fork_begin copied ended or_stop
  fork_session refused c r = elim (begin_unless refused c) [
    | none ↦ (some begin_fork, c)
    | some c' ↦ ended c' (or_stop (fork_begin to_json model_json model_of_json c'.db r) (copied r))
  ]

  unfoldable pub fork_session_empty :
      (refused : Bool) → Connection → ForkRequest → Option ForkErr × Connection
  unfolding begin_unless fork_begin ended
  fork_session_empty refused c r = elim (begin_unless refused c) [
    | none ↦ (some begin_fork, c)
    | some c' ↦ ended c' (fork_begin to_json model_json model_of_json c'.db r)
  ]
