-- ===== src/Store/Reproject/Appends.antt =====
-- An append leaves the projections as a replay of the log would.
use kn9t.Prelude.{
  ℕ, ◌+◌, ◌≡◌, refl, sym, ap, ◌∙◌, subst, String, Option, none, some, List, [], ◌∷◌, ◌++◌, keep,
  str_eq, Bool-cases, inl, inr, All,
}
use kn9t.Prelude.Table.{find}
use kn9t.Core.Message.{SessionId, Content}
use kn9t.Core.Event.{Event, with_seq}
use kn9t.Store.Database.{Db, Connection, SessionRow}
use kn9t.Store.Project.{Row, write_rows, project}
use kn9t.Store.Session.{Refusals, append_stamped, append}
use kn9t.Store.Session.Numbering.{row_of, advanced, append_stamped-ends, append-ends}
use kn9t.Store.Reproject.{decoded_rows, replay_row, replay_events}
use kn9t.Store.Reproject.Tables.{IsSameView, of_session, used_by, owner_of}
use kn9t.Store.Reproject.Replay.{
  same_view, same_sym, same_trans, write_rows-own, write_rows-foreign, project-owner, advanced-view,
  replay_events-view, replay_events-append,
}
use kn9t.Store.Reproject.Faithful.{cleared, IsProjected}
use kn9t.Store.Session.Numbering.{log-advanced}

-- What is in the tables of projections is all that counts.
same_tables :
    {session : String} {r : Db} (a b : Db)
    → a.messages ≡ b.messages
    → a.usage ≡ b.usage
    → IsSameView session r a
    → IsSameView session r b
same_tables a b m u same = record {
  messages_same = same.messages_same ∙ ap (keep (of_session _)) m;
  usage_same = same.usage_same ∙ ap (keep (used_by _)) u;
}

-- The rows of a projection, written on two databases with the same view of each session.
write_rows-same :
    (session owner : String) (a b : Db) (rows : List Row)
    → All (λ r. owner_of r ≡ owner) rows
    → IsSameView session a b
    → IsSameView session (write_rows a rows) (write_rows b rows)
write_rows-same session owner a b rows owned same = elim (Bool-cases (str_eq owner session)) [
  | inl own ↦ write_rows-own session owner a b rows owned own same
  | inr foreign ↦
      same_trans (write_rows-foreign session owner a rows owned foreign)
        (same_trans same (same_sym (write_rows-foreign session owner b rows owned foreign)))
]

module _ (to_json : Event → String) (content_json : List Content → String)
    (from_json : String → Option Event) where
  advanced-IsProjected :
      (db : Db) (session : SessionId) (ts seq : ℕ) (event : Event) (row : SessionRow)
      → from_json (to_json event) ≡ some event
      → find db.sessions session ≡ some row
      → IsProjected content_json from_json db
      → IsProjected content_json from_json (
          advanced content_json
            (record db { events = db.events ++ row_of to_json session ts seq event ∷ [] })
            (project content_json session ts event)
            event
            session
            seq)
  unfolding replay_row decoded_rows
  advanced-IsProjected db session ts seq event row round_trip found projected other =
      let new = row_of to_json session ts seq event in
      let db1 = record db { events = db.events ++ new ∷ [] } in
      let rows = project content_json session ts event in
      let adv = advanced content_json db1 rows event session seq in
      let replayed = replay_events content_json from_json (cleared db) db.events in
      let start : IsSameView other (cleared adv) (cleared db) = record {
        messages_same = refl;
        usage_same = refl;
      } in
      let events : adv.events ≡ db1.events =
        (log-advanced content_json db1 rows event session seq row found).1 in
      let same_start =
        same_trans
          (replay_events-view content_json from_json other (cleared adv) (cleared db) adv.events
            start)
          (same_sym (
            replay_events-view content_json from_json other (cleared db) (cleared db) adv.events
              (same_view other (cleared db)))) in
      let last : replay_events content_json from_json (cleared db) adv.events
          ≡ write_rows replayed rows =
        ap (replay_events content_json from_json (cleared db)) events
        ∙ replay_events-append content_json from_json (cleared db) db.events new
        ∙ ap (λ o. write_rows replayed (decoded_rows content_json from_json session ts o))
            round_trip in
      same_trans same_start (
        same_trans (subst (IsSameView other _) last (same_view other _)) (
          same_trans
            (write_rows-same other session replayed db1 rows
              (project-owner content_json session ts event)
              (same_tables db db1 refl refl (projected other)))
            (same_sym (advanced-view content_json db1 rows event session seq other))))

  abbrev pub IsSavedProjected : Option Db → Type 0
  IsSavedProjected none = Unit
  IsSavedProjected (some db) = IsProjected content_json from_json db

  append_stamped-IsProjected :
      (refuses : Refusals) (db : Db) (session : SessionId) (ts seq : ℕ) (event : Event)
      (row : SessionRow)
      → from_json (to_json event) ≡ some event
      → find db.sessions session ≡ some row
      → IsProjected content_json from_json db
      → let begun : Connection = record { db = db; saved = some db } in
        let after = append_stamped to_json content_json refuses begun session ts seq event in
        IsProjected content_json from_json after.conn.db × IsSavedProjected after.conn.saved
  append_stamped-IsProjected refuses db session ts seq event row round_trip found projected =
      let begun : Connection = record { db = db; saved = some db } in
      let ends =
        append_stamped-ends to_json content_json refuses begun session ts seq event db refl in
      elim ends [
        | inl (back, closed) ↦ (
          subst (IsProjected content_json from_json) (sym back) projected,
          subst IsSavedProjected (sym closed) tt,
        )
        | inr (on, end) ↦ (
          subst (IsProjected content_json from_json) (sym on)
              (advanced-IsProjected db session ts seq event row round_trip found projected),
          elim end [
            | inl closed ↦ subst IsSavedProjected (sym closed) tt
            | inr still ↦ subst IsSavedProjected (sym still) projected
          ],
        )
      ]

  -- If the JSON of the event reads back as the event, whatever its number, an append, whatever SQLite
  -- refuses, leaves the projections of every session as a replay of the log would write them, in
  -- the database and in what a rollback goes back to, if they were so before.
  pub append-IsProjected :
      (refuses : Refusals) (c : Connection) (session : SessionId) (ts : ℕ) (event : Event)
      → ((n : ℕ) → from_json (to_json (with_seq event n)) ≡ some (with_seq event n))
      → IsProjected content_json from_json c.db
      → IsSavedProjected c.saved
      → let after = append to_json content_json refuses c session ts event in
        IsProjected content_json from_json after.conn.db × IsSavedProjected after.conn.saved
  append-IsProjected refuses c session ts event round_trip projected saved =
      let both =
        λ (k : Connection). IsProjected content_json from_json k.db × IsSavedProjected k.saved in
      elim (append-ends to_json content_json refuses c session ts event) [
        | inl same ↦ subst both (sym same) (projected, saved)
        | inr (inl missing) ↦ subst both (sym missing) (projected, projected)
        | inr (inr (row, found, same)) ↦ subst both (sym same) (
            append_stamped-IsProjected refuses c.db session ts (row.head_seq + 1)
              (with_seq event (row.head_seq + 1)) row (round_trip (row.head_seq + 1)) found
              projected)
      ]
