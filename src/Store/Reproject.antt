-- ===== src/Store/Reproject.antt =====
-- crates/kn9t-store/src/reproject.rs: the projections rebuilt from the log. What `serde_json` reads
-- from a payload is the parameter `from_json`. The rows in the order of `ORDER BY session_id, seq` are
-- the parameter `ordered`; SQLite promises that it is the same rows, and those of a session by
-- rising number. Its statements are taken to succeed; the version number that it
-- writes to `meta` and the diff of `reproject --check` are left out.
pub mod Tables
pub mod Replay
pub mod Faithful
pub mod Appends
use kn9t.Prelude.{ℕ, String, Option, none, some, List, [], ◌∷◌}
use kn9t.Core.Message.{Content}
use kn9t.Core.Event.{Event}
use kn9t.Store.Database.{EventRow, Db}
use kn9t.Store.Project.{Row, project, write_rows}

module _ (content_json : List Content → String) (from_json : String → Option Event) where
  -- The projection of a decoded payload; one that is no event is skipped.
  unfoldable pub decoded_rows : (session_id : String) (ts : ℕ) → Option Event → List Row
  decoded_rows sid ts none = []
  decoded_rows sid ts (some event) = project content_json sid ts event

  unfoldable pub replay_row : Db → EventRow → Db
  unfolding decoded_rows
  replay_row db row = write_rows db (decoded_rows row.session_id row.ts (from_json row.payload))

  unfoldable pub replay_events : Db → List EventRow → Db
  unfolding replay_row
  replay_events db [] = db
  replay_events db (row ∷ rows) = replay_events (replay_row db row) rows

  -- The tables are dropped and filled again, in one transaction.
  unfoldable pub reproject : (ordered : List EventRow → List EventRow) → Db → Db
  unfolding replay_events
  reproject ordered db = replay_events (record db { messages = []; usage = [] }) (ordered db.events)
