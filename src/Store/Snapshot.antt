-- ===== src/Store/Snapshot.antt =====
-- `SqliteStore::read_attach_snapshot` of crates/kn9t-store/src/db.rs: what an attaching client has
-- missed. Both queries run under the store's lock, so they see one database. They are taken to
-- succeed; a session that is missing has the head 0. `ORDER BY seq` is an insertion sort.
pub mod Complete
use kn9t.Prelude.{
  ℕ, ◌^◌, String, Bool, true, false, ◌&&◌, ◌||◌, Option, none, some, List, [], ◌∷◌, map, keep, ltb,
  leb, str_eq, if◌then◌else◌,
}
use kn9t.Prelude.Table.{find}
use kn9t.Store.Database.{SessionRow, EventRow, Db}

-- `n as i64` is negative: a u64 from 2^63 on.
abbrev pub is_negative : (n : ℕ) → Bool
is_negative n = leb (2 ^ 63) n

-- `WHERE session_id=?1 AND seq>?2`, with `from as i64`. A number of a row is not negative.
unfoldable pub is_after : (session : String) (from : ℕ) → EventRow → Bool
is_after session from row = str_eq row.session_id session && (is_negative from || ltb from row.seq)

unfoldable pub insert_by_seq : EventRow → List EventRow → List EventRow
insert_by_seq row [] = row ∷ []
insert_by_seq row (r ∷ rows) =
    let rest = insert_by_seq row rows in if leb row.seq r.seq then row ∷ r ∷ rows else r ∷ rest

unfoldable pub order_by_seq : List EventRow → List EventRow
unfolding insert_by_seq
order_by_seq [] = []
order_by_seq (row ∷ rows) = insert_by_seq row (order_by_seq rows)

unfoldable pub head_of : Option SessionRow → ℕ
head_of none = 0
head_of (some row) = row.head_seq

unfoldable pub read_attach_snapshot : Db → (session : String) → (from : ℕ) → List String × ℕ
unfolding is_after order_by_seq head_of
read_attach_snapshot db session from = (
  map (λ r. r.payload) (order_by_seq (keep (is_after session from) db.events)),
  head_of (find db.sessions session),
)
