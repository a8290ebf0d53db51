-- ===== src/Store/Reproject/Replay.antt =====
-- What a replay of the log does to the rows of one session.
use kn9t.Prelude.{
  ℕ, ◌≡◌, refl, sym, ap, ◌∙◌, String, true, false, Option, none, some, List, [], ◌∷◌, ◌++◌, keep,
  str_eq, arith, Bool-cases, Option-cases, inl, inr, All,
}
use kn9t.Prelude.Table.{find}
use kn9t.Core.Message.{SessionId, Content}
use kn9t.Core.Event.{Event}
use kn9t.Store.Database.{Db, EventRow, set_head_seq}
use kn9t.Store.Project.{Row, write_row, write_rows, project, incr_blob_refs}
use kn9t.Store.Session.{appended_content, count_refs}
use kn9t.Store.Session.Gapless.{is_of}
use kn9t.Store.Session.Numbering.{advanced}
use kn9t.Store.Reproject.{decoded_rows, replay_row, replay_events}
use kn9t.Store.Reproject.Tables.{
  IsSameView, of_session, used_by, owner_of, write_row-foreign, write_row-own,
}

pub same_view : (session : String) (db : Db) → IsSameView session db db
same_view session db = record { messages_same = refl; usage_same = refl }

pub same_sym : {session : String} {a b : Db} → IsSameView session a b → IsSameView session b a
same_sym s = record { messages_same = sym s.messages_same; usage_same = sym s.usage_same }

pub same_trans :
    {session : String} {a b c : Db}
    → IsSameView session a b
    → IsSameView session b c
    → IsSameView session a c
same_trans s t = record {
  messages_same = s.messages_same ∙ t.messages_same;
  usage_same = s.usage_same ∙ t.usage_same;
}

pub write_rows-foreign :
    (session owner : String) (db : Db) (rows : List Row)
    → All (λ r. owner_of r ≡ owner) rows
    → str_eq owner session ≡ false
    → IsSameView session (write_rows db rows) db
unfolding write_rows
write_rows-foreign session owner db [] owned foreign = same_view session db
write_rows-foreign session owner db (row ∷ rows) (here, owned) foreign =
    same_trans (write_rows-foreign session owner (write_row db row) rows owned foreign)
      (write_row-foreign session db row (ap (λ o. str_eq o session) here ∙ foreign))

pub write_rows-own :
    (session owner : String) (a b : Db) (rows : List Row)
    → All (λ r. owner_of r ≡ owner) rows
    → str_eq owner session ≡ true
    → IsSameView session a b
    → IsSameView session (write_rows a rows) (write_rows b rows)
unfolding write_rows
write_rows-own session owner a b [] owned own same = same
write_rows-own session owner a b (row ∷ rows) (here, owned) own same =
    write_rows-own session owner (write_row a row) (write_row b row) rows owned own
      (write_row-own session a b row (ap (λ o. str_eq o session) here ∙ own) same)

module _ (content_json : List Content → String) where
  pub project-owner :
      (session : String) (ts : ℕ) (event : Event)
      → All (λ r. owner_of r ≡ session) (project content_json session ts event)
  unfolding project
  project-owner session ts (Event.message_appended seq msg) = (refl, tt)
  project-owner session ts (Event.usage_recorded a b c d e f g h) = (refl, tt)
  project-owner session ts (Event.compacted a b c) = (refl, tt)
  project-owner session ts event = tt

  -- What follows the writing of the rows in an append touches no projection.
  tables-count_refs :
      (db : Db) (event : Event)
      → ((count_refs content_json db event).messages ≡ db.messages)
        × ((count_refs content_json db event).usage ≡ db.usage)
  unfolding count_refs incr_blob_refs
  tables-count_refs db event = elim (Option-cases (appended_content event)) [
    | inl nothing ↦ ground (arith, nothing)
    | inr (content, e) ↦ ground (arith, e)
  ]

  tables-set_head_seq :
      (db : Db) (session : SessionId) (seq : ℕ)
      → ((set_head_seq db session seq).messages ≡ db.messages)
        × ((set_head_seq db session seq).usage ≡ db.usage)
  unfolding set_head_seq
  tables-set_head_seq db session seq = elim (Option-cases (find db.sessions session)) [
    | inl nothing ↦ ground (arith, nothing)
    | inr (row, e) ↦ ground (arith, e)
  ]

  pub advanced-view :
      (db : Db) (rows : List Row) (event : Event) (session : SessionId) (seq : ℕ) (other : String)
      → IsSameView other (advanced content_json db rows event session seq) (write_rows db rows)
  advanced-view db rows event session seq other =
      let counted = count_refs content_json (write_rows db rows) event in
      let (m1, u1) = tables-count_refs (write_rows db rows) event in
      let (m2, u2) = tables-set_head_seq counted session seq in
      record {
        messages_same = ap (keep (of_session other)) (m2 ∙ m1);
        usage_same = ap (keep (used_by other)) (u2 ∙ u1);
      }

module _ (content_json : List Content → String) (from_json : String → Option Event) where
  decoded-owner :
      (session : String) (ts : ℕ) (event : Option Event)
      → All (λ r. owner_of r ≡ session) (decoded_rows content_json from_json session ts event)
  unfolding decoded_rows
  decoded-owner session ts none = tt
  decoded-owner session ts (some event) = project-owner content_json session ts event

  replay_row-foreign :
      (session : String) (db : Db) (row : EventRow)
      → str_eq row.session_id session ≡ false
      → IsSameView session (replay_row content_json from_json db row) db
  unfolding replay_row
  replay_row-foreign session db row foreign =
      write_rows-foreign session row.session_id db _
        (decoded-owner row.session_id row.ts (from_json row.payload)) foreign

  replay_row-own :
      (session : String) (a b : Db) (row : EventRow)
      → str_eq row.session_id session ≡ true
      → IsSameView session a b
      → IsSameView session
          (replay_row content_json from_json a row)
          (replay_row content_json from_json b row)
  unfolding replay_row
  replay_row-own session a b row own same =
      write_rows-own session row.session_id a b _
        (decoded-owner row.session_id row.ts (from_json row.payload)) own same

  -- The rows of one session that a replay leaves depend on this session's events only.
  pub replay_events-view :
      (session : String) (a b : Db) (rows : List EventRow)
      → IsSameView session a b
      → IsSameView session
          (replay_events content_json from_json a rows)
          (replay_events content_json from_json b (keep (is_of session) rows))
  unfolding replay_events
  replay_events-view session a b [] same = same
  replay_events-view session a b (row ∷ rows) same =
      let a' = replay_row content_json from_json a row in
      let b' = replay_row content_json from_json b row in
      elim (Bool-cases (str_eq row.session_id session)) [
        | inl own ↦
            rw own (replay_events-view session a' b' rows (replay_row-own session a b row own same))
        | inr foreign ↦ rw foreign (
            replay_events-view session a' b rows
              (same_trans (replay_row-foreign session a row foreign) same))
      ]

  pub replay_events-append :
      (db : Db) (rows : List EventRow) (row : EventRow)
      → replay_events content_json from_json db (rows ++ row ∷ [])
        ≡ replay_row content_json from_json (replay_events content_json from_json db rows) row
  unfolding replay_events
  replay_events-append db [] row = refl
  replay_events-append db (r ∷ rows) row =
      replay_events-append (replay_row content_json from_json db r) rows row
