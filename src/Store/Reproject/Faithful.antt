-- ===== src/Store/Reproject/Faithful.antt =====
-- The rebuilt projections are those that the appends have written.
use kn9t.Prelude.{
  ℕ, ◌≡◌, sym, subst, String, Option, none, some, List, [], keep, IsRising, upto-IsRising,
}
use kn9t.Core.Message.{Content}
use kn9t.Core.Event.{Event}
use kn9t.Store.Database.{Db, EventRow, SessionRow}
use kn9t.Store.Session.Gapless.{IsLog, IsGapless, is_of, numbers}
use kn9t.Store.Reproject.{replay_events, reproject}
use kn9t.Store.Reproject.Tables.{IsSameView}
use kn9t.Store.Reproject.Replay.{same_view, same_sym, same_trans, replay_events-view}

abbrev pub cleared : Db → Db
cleared db = record db { messages = []; usage = [] }

-- The projections of each session are what a replay of the log writes.
abbrev pub IsProjected : (List Content → String) → (String → Option Event) → Db → Type 0
IsProjected content_json from_json db =
    (session : String)
    → IsSameView session (replay_events content_json from_json (cleared db) db.events) db

IsLog-IsRising : (o : Option SessionRow) (ns : List ℕ) → IsLog o ns → IsRising ns
IsLog-IsRising none ns empty = subst IsRising (sym empty) tt
IsLog-IsRising (some row) ns (first, low, these) =
    subst IsRising (sym these) (upto-IsRising first _)

-- A rebuild gives each session the rows that it had, if the log has no hole and the projections are
-- those of the log, and if SQLite puts the rows of a session, which are by rising number in the log
-- already, in that order.
pub reproject-same :
    (content_json : List Content → String) (from_json : String → Option Event)
    (ordered : List EventRow → List EventRow) (db : Db) (session : String)
    → ((rows : List EventRow)
        → IsRising (numbers session rows)
        → keep (is_of session) (ordered rows) ≡ keep (is_of session) rows)
    → IsGapless db
    → IsProjected content_json from_json db
    → IsSameView session (reproject content_json from_json ordered db) db
unfolding reproject
reproject-same content_json from_json ordered db session in_order gapless projected =
    let empty = same_view session (cleared db) in
    let rising = IsLog-IsRising _ (numbers session db.events) (gapless session) in
    let same_events = in_order db.events rising in
    let view = replay_events-view content_json from_json session (cleared db) (cleared db) in
    let replayed = replay_events content_json from_json (cleared db) in
    same_trans (view (ordered db.events) empty) (
      same_trans
        (subst
          (λ l.
            IsSameView session (replayed (keep (is_of session) (ordered db.events))) (replayed l))
          same_events (same_view session _))
        (same_trans (same_sym (view db.events empty)) (projected session)))
