-- ===== src/Store/Deletion.antt =====
-- crates/kn9t-store/src/session_delete.rs, with `decr_blob_refs` of project.rs and the blobs of blob.rs. Which
-- statement SQLite refuses, if any, is an argument; the tables of live progress and of plugin keys are left out. The hash of a blob (`sha2`) is the parameter `sha256_hex`. A reference count is never
-- negative: at 1 or below the row is deleted as soon as it is decremented.
pub mod Effects
pub mod Lost
use kn9t.Prelude.{
  ℕ, ◌-◌, String, Bool, not, false, Option, none, some, List, [], ◌∷◌, keep, leb, str_eq,
  if◌then◌else◌,
}
use kn9t.Prelude.Table.{Table, find, put, remove, any_value}
use kn9t.Core.Message.{SessionId}
use kn9t.Store.Database.{
  SessionRow, EventRow, MessageRow, UsageRow, Blob, Db, Connection, begin, commit, rollback,
}
use kn9t.Store.Project.{extract_sha256_refs}

pub data DeleteErr : Type 0 where
  fork_check origin_of_forks begin_delete read_messages write_delete commit_delete : DeleteErr

-- Where the call is stopped by SQLite: at the count of the forks, at its BEGIN, when the messages are
-- read, at a statement that writes, at its COMMIT.
pub data DeleteStop : Type 0 where
  at_fork_check at_begin at_read at_write at_commit : DeleteStop

-- `UPDATE blobs SET refcount = refcount - 1`, then `DELETE FROM blobs ... AND refcount <= 0`
unfoldable pub decr_refcount : Table Blob → (hash : String) → Table Blob
decr_refcount blobs hash = elim (find blobs hash) [
  | none ↦ blobs
  | some b ↦
      if leb b.refcount 1
      then remove blobs hash
      else put blobs hash (record b { refcount = b.refcount - 1 })
]

unfoldable pub decr_all : Table Blob → List String → Table Blob
unfolding decr_refcount
decr_all blobs [] = blobs
decr_all blobs (hash ∷ hashes) = decr_all (decr_refcount blobs hash) hashes

unfoldable pub decr_blob_refs : Table Blob → (content_json : String) → Table Blob
unfolding decr_all extract_sha256_refs
decr_blob_refs blobs content_json = decr_all blobs (extract_sha256_refs content_json)

unfoldable pub decr_messages : Table Blob → List MessageRow → Table Blob
unfolding decr_blob_refs
decr_messages blobs [] = blobs
decr_messages blobs (m ∷ ms) = decr_messages (decr_blob_refs blobs m.content) ms

-- `SELECT COUNT(*) FROM sessions WHERE origin_session=?1`, above 0
unfoldable pub is_fork_of : SessionId → SessionRow → Bool
is_fork_of session row = elim row.origin_session [
  | none ↦ false
  | some origin ↦ str_eq origin session
]

-- The statements of the transaction.
unfoldable pub deleted : Db → SessionId → Db
unfolding decr_messages
deleted db session =
    let own = keep (λ (m : MessageRow). str_eq m.session_id session) db.messages in
    record {
      sessions = remove db.sessions session;
      events = keep (λ (e : EventRow). not (str_eq e.session_id session)) db.events;
      messages = keep (λ (m : MessageRow). not (str_eq m.session_id session)) db.messages;
      usage = keep (λ (u : UsageRow). not (str_eq u.session_id session)) db.usage;
      blobs = decr_messages db.blobs own;
    }

-- In the transaction. Only where a write fails there is a ROLLBACK.
unfoldable pub delete_rows :
    Option DeleteStop → Connection → SessionId → Option DeleteErr × Connection
unfolding deleted
delete_rows (some at_read) c session = (some read_messages, c)
delete_rows (some at_write) c session = (some write_delete, rollback c)
delete_rows (some at_commit) c session =
    (some commit_delete, record c { db = deleted c.db session })
delete_rows stop c session = (none, commit (record c { db = deleted c.db session }))

unfoldable pub begin_delete_rows :
    Option DeleteStop → Connection → SessionId → Option DeleteErr × Connection
unfolding delete_rows
begin_delete_rows (some at_begin) c session = (some begin_delete, c)
begin_delete_rows stop c session = elim (begin c) [
  | none ↦ (some begin_delete, c)
  | some c' ↦ delete_rows stop c' session
]

unfoldable pub delete_session :
    Option DeleteStop → Connection → SessionId → Option DeleteErr × Connection
unfolding is_fork_of begin_delete_rows
delete_session (some at_fork_check) c session = (some fork_check, c)
delete_session stop c session =
    if any_value (is_fork_of session) c.db.sessions
    then (some origin_of_forks, c)
    else begin_delete_rows stop c session

-- `INSERT INTO blobs`, unless the hash is there.
unfoldable pub put_blob :
    (sha256_hex : List ℕ → String)
    → Table Blob
    → (bytes : List ℕ) → (mime : String) → Table Blob × String
put_blob sha256_hex blobs bytes mime =
    let hash = sha256_hex bytes in
    elim (find blobs hash) [
      | some _ ↦ (blobs, hash)
      | none ↦ (put blobs hash (record { mime = mime; bytes = bytes; refcount = 0 }), hash)
    ]

unfoldable pub get_blob : Table Blob → (hash : String) → Option (List ℕ × String)
get_blob blobs hash = elim (find blobs hash) [ none ↦ none | some b ↦ some (b.bytes, b.mime) ]
