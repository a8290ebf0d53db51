-- ===== src/Store/Database.antt =====
-- The tables of crates/kn9t-store/src/db.rs that the event log and its projections use, and the
-- statements that crates/kn9t-store/src/session.rs and project.rs run on them. A table is the list of its
-- rows in the order of their insertion; `sessions` and `blobs` are keyed by text. A connection has
-- at most one transaction: `saved` is what a rollback goes back to. SQLite refuses a `BEGIN` inside
-- a transaction and a row whose primary key is taken. Times are milliseconds from 1970.
use kn9t.Prelude.{
  ℕ, String, Bool, not, ◌&&◌, ◌+◌, Option, none, some, List, [], ◌∷◌, ◌++◌, any, keep, leb, ◌==◌,
  str_eq, if◌then◌else◌, ℤ,
}
use kn9t.Prelude.Table.{Table, find, put}
use kn9t.Core.Model.{Price, Tokens}

-- The name and the columns that a fork fills in, but for `origin_session`, are left out.
pub record SessionRow : Type 0 where
  pub created_at : ℕ
  pub cwd : String
  pub origin_session : Option String
  pub model_at_fork : Option String
  pub head_seq : ℕ

pub record EventRow : Type 0 where
  pub session_id : String
  pub seq : ℕ
  pub ts : ℕ
  pub kind : String
  pub payload : String

pub record MessageRow : Type 0 where
  pub session_id : String
  pub seq : ℕ
  pub role : String
  pub content : String
  pub silent : Bool

-- The REAL columns, which mirror those in micros, are left out.
pub record UsageRow : Type 0 where
  pub session_id : String
  pub seq : ℕ
  pub ts : ℕ
  pub provider : String
  pub model : String
  pub kind : String
  pub tokens : Tokens
  pub price : Price
  pub cost_micros : ℤ
  pub estimated : Bool

pub record Blob : Type 0 where
  pub mime : String
  pub bytes : List ℕ
  pub refcount : ℕ

pub record Db : Type 0 where
  pub sessions : Table SessionRow
  pub events : List EventRow
  pub messages : List MessageRow
  pub usage : List UsageRow
  pub blobs : Table Blob

pub record Connection : Type 0 where
  pub db : Db
  pub saved : Option Db

-- `BEGIN IMMEDIATE`
unfoldable pub begin : Connection → Option Connection
begin c = elim c.saved [ some _ ↦ none | none ↦ some (record c { saved = some c.db }) ]

-- `COMMIT`
unfoldable pub commit : Connection → Connection
commit c = record c { saved = none }

-- `ROLLBACK`, whose error the program ignores.
unfoldable pub rollback : Connection → Connection
rollback c = elim c.saved [ none ↦ c | some db ↦ record { db = db; saved = none } ]

unfoldable pub has_key : (session : String) (seq : ℕ) → EventRow → Bool
has_key session seq row = str_eq row.session_id session && (row.seq == seq)

-- `INSERT INTO events`
unfoldable pub insert_event : Db → EventRow → Option Db
unfolding has_key
insert_event db row =
    if any (has_key row.session_id row.seq) db.events
    then none
    else some (record db { events = db.events ++ row ∷ [] })

unfoldable pub other_message : (session : String) (seq : ℕ) → MessageRow → Bool
other_message session seq row = not (str_eq row.session_id session && (row.seq == seq))

-- `INSERT OR REPLACE INTO messages`
unfoldable pub replace_message : MessageRow → List MessageRow → List MessageRow
unfolding other_message
replace_message row rows = keep (other_message row.session_id row.seq) rows ++ row ∷ []

unfoldable pub other_usage : (session : String) (seq : ℕ) → UsageRow → Bool
other_usage session seq row = not (str_eq row.session_id session && (row.seq == seq))

-- `INSERT OR REPLACE INTO usage`
unfoldable pub replace_usage : UsageRow → List UsageRow → List UsageRow
unfolding other_usage
replace_usage row rows = keep (other_usage row.session_id row.seq) rows ++ row ∷ []

unfoldable pub is_outside : (session : String) (start end : ℕ) → MessageRow → Bool
is_outside session start end row =
    not (str_eq row.session_id session && leb start row.seq && leb row.seq end)

-- `DELETE FROM messages WHERE session_id=?1 AND seq>=?2 AND seq<=?3`
unfoldable pub delete_range : (session : String) (start end : ℕ) → List MessageRow → List MessageRow
unfolding is_outside
delete_range session start end = keep (is_outside session start end)

-- `UPDATE blobs SET refcount = refcount + 1 WHERE hash = ?1`
unfoldable pub incr_refcount : Table Blob → (hash : String) → Table Blob
incr_refcount blobs hash = elim (find blobs hash) [
  | none ↦ blobs
  | some b ↦ put blobs hash (record b { refcount = b.refcount + 1 })
]

-- `UPDATE sessions SET head_seq = ?1 WHERE id = ?2`
unfoldable pub set_head_seq : Db → (session : String) → ℕ → Db
set_head_seq db session seq = elim (find db.sessions session) [
  | none ↦ db
  | some row ↦ record db { sessions = put db.sessions session (record row { head_seq = seq }) }
]
