-- ===== src/Store/Session/Numbering.antt =====
-- How `append` numbers an event, and what each of its branches does to the log.
use kn9t.Prelude.{
  ℕ, suc, ◌+◌, ◌-◌, ◌≡◌, refl, sym, ap, ◌∙◌, subst, String, true, false, not, none, some, is_some,
  List, [], ◌∷◌, ◌++◌, any, ◌==◌, ◌⊎◌, inl, inr, ◌&&◌, arith, Option-cases, Bool-cases,
}
use kn9t.Prelude.Table.{find, put}
use kn9t.Core.Message.{SessionId, Content}
use kn9t.Core.Event.{Event, seq_of, with_seq}
use kn9t.Store.Database.{
  SessionRow, EventRow, Db, Connection, begin, commit, rollback, has_key, insert_event,
  set_head_seq,
}
use kn9t.Store.Project.{Row, write_rows, project}
use kn9t.Store.Session.{Refusals, count_refs, event_kind_name, append_stamped, append}
use kn9t.Store.Session.Gapless.{
  IsLog, IsGapless, IsSaved, IsSound, numbers, any-has_key, any-upto, log-write_rows,
  log-count_refs, extended-IsLog,
}

-- The row that an event becomes.
abbrev pub row_of : (to_json : Event → String) → SessionId → (ts seq : ℕ) → Event → EventRow
row_of to_json session ts seq event = record {
  session_id = session;
  seq = seq;
  ts = ts;
  kind = event_kind_name event;
  payload = to_json event;
}

module _ (content_json : List Content → String) where
  -- What follows the insertion in the transaction.
  abbrev pub advanced : Db → List Row → Event → SessionId → ℕ → Db
  advanced db rows event session seq =
      set_head_seq (count_refs content_json (write_rows db rows) event) session seq

  pub log-advanced :
      (db : Db) (rows : List Row) (event : Event) (session : SessionId) (seq : ℕ) (row : SessionRow)
      → find db.sessions session ≡ some row
      → ((advanced db rows event session seq).sessions
          ≡ put db.sessions session (record row { head_seq = seq }))
        × ((advanced db rows event session seq).events ≡ db.events)
  unfolding set_head_seq
  log-advanced db rows event session seq row found =
      let (s1, e1) = log-write_rows db rows in
      let (s2, e2) = log-count_refs content_json (write_rows db rows) event in
      let written = count_refs content_json (write_rows db rows) event in
      let sessions : written.sessions ≡ db.sessions = s2 ∙ s1 in
      let here : find written.sessions session ≡ some row =
        ap (λ t. find t session) sessions ∙ found in
      (ground (arith, here, sessions), ground (arith, here, e2 ∙ e1))

  advanced-IsGapless :
      (db : Db) (rows : List Row) (event : Event) (new : EventRow) (row : SessionRow)
      → find db.sessions new.session_id ≡ some row
      → new.seq ≡ row.head_seq + 1
      → IsGapless db
      → IsGapless (
          advanced (record db { events = db.events ++ new ∷ [] }) rows event new.session_id new.seq)
  advanced-IsGapless db rows event new row found next gapless session =
      let db1 = record db { events = db.events ++ new ∷ [] } in
      let (sessions, events) = log-advanced db1 rows event new.session_id new.seq row found in
      rw (sessions, events)
        (extended-IsLog db.sessions row db.events new found next gapless session)

-- No event of a session has the number that comes next.
next_free :
    (session : String) (row : SessionRow) (events : List EventRow)
    → IsLog (some row) (numbers session events)
    → any (has_key session (row.head_seq + 1)) events ≡ false
next_free session row events (first, low, these) =
    any-has_key session (row.head_seq + 1) events
    ∙ ap (any (λ i. i == (row.head_seq + 1))) these
    ∙ any-upto first (suc row.head_seq - first) (row.head_seq + 1) (omega arith)

abbrev pub nothing_refused : Refusals
nothing_refused = record {
  at_begin = false;
  at_insert = false;
  at_write = false;
  at_blob_refs = false;
  at_head = false;
  at_commit = false;
}

module _ (to_json : Event → String) (content_json : List Content → String) where
  -- Where a call that has read the head ends: back at the start, or with the event in the log.
  pub append_stamped-ends :
      (refuses : Refusals) (c : Connection) (session : SessionId) (ts seq : ℕ) (event : Event)
      (start : Db)
      → c.saved ≡ some start
      → let after = append_stamped to_json content_json refuses c session ts seq event in
        let new = row_of to_json session ts seq event in
        let db1 = record c.db { events = c.db.events ++ new ∷ [] } in
        let rows = project content_json session ts event in
        ((after.conn.db ≡ start) × (after.conn.saved ≡ none))
        ⊎ ((after.conn.db ≡ advanced content_json db1 rows event session seq)
            × ((after.conn.saved ≡ none) ⊎ (after.conn.saved ≡ some start)))
  unfolding append_stamped rollback insert_event commit
  append_stamped-ends refuses c session ts seq event start begun = ground (arith, begun)

  append_stamped-IsSound :
      (refuses : Refusals) (db : Db) (session : SessionId) (ts seq : ℕ) (event : Event)
      (row : SessionRow)
      → find db.sessions session ≡ some row
      → seq ≡ row.head_seq + 1
      → IsGapless db
      → IsSound
          (append_stamped to_json content_json refuses
            (record { db = db; saved = some db })
            session
            ts
            seq
            event).conn
  append_stamped-IsSound refuses db session ts seq event row found next gapless =
      let begun : Connection = record { db = db; saved = some db } in
      let rows = project content_json session ts event in
      let new = row_of to_json session ts seq event in
      elim (append_stamped-ends refuses begun session ts seq event db refl) [
        | inl (back, closed) ↦ (subst IsGapless (sym back) gapless, subst IsSaved (sym closed) tt)
        | inr (on, end) ↦
            let ahead = advanced-IsGapless content_json db rows event new row found next gapless in
            (
              subst IsGapless (sym on) ahead,
              elim end [
                | inl closed ↦ subst IsSaved (sym closed) tt
                | inr still ↦ subst IsSaved (sym still) gapless
              ],
            )
      ]

  pub append-ends :
      (refuses : Refusals) (c : Connection) (session : SessionId) (ts : ℕ) (event : Event)
      → let after = append to_json content_json refuses c session ts event in
        let begun : Connection = record { db = c.db; saved = some c.db } in
        (after.conn ≡ c)
        ⊎ (after.conn ≡ begun)
        ⊎ ((row : SessionRow) × (find c.db.sessions session ≡ some row)
            × (after.conn
                ≡ (append_stamped to_json content_json refuses begun session ts
                    (row.head_seq + 1)
                    (with_seq event (row.head_seq + 1))).conn))
  unfolding append begin
  append-ends refuses c session ts event = elim (Option-cases c.saved) [
    | inr (start, busy) ↦ inl (ground (arith, busy))
    | inl idle ↦ elim (Bool-cases (is_some (seq_of event) && not refuses.at_begin)) [
      | inr stopped ↦ inl (ground (arith, idle, stopped))
      | inl goes ↦ elim (Option-cases (find c.db.sessions session)) [
        | inl missing ↦ inr (inl (ground (arith, idle, goes, missing)))
        | inr (row, found) ↦ inr (inr (row, found, ground (arith, idle, goes, found)))
      ]
    ]
  ]

  -- The log of every session stays without a hole, and so does the log that a rollback goes back to,
  -- whichever statement SQLite refuses.
  pub append-IsSound :
      (refuses : Refusals) (c : Connection) (session : SessionId) (ts : ℕ) (event : Event)
      → IsSound c
      → IsSound (append to_json content_json refuses c session ts event).conn
  unfolding append begin
  append-IsSound refuses c session ts event sound =
      let begun : Connection = record { db = c.db; saved = some c.db } in
      let after = append to_json content_json refuses c session ts event in
      elim (append-ends refuses c session ts event) [
        | inl same ↦ subst IsSound (sym same) sound
        | inr (inl missing) ↦ subst IsSound (sym missing) (sound.0, sound.0)
        | inr (inr (row, found, same)) ↦ subst IsSound (sym same) (
            append_stamped-IsSound refuses c.db session ts (row.head_seq + 1)
              (with_seq event (row.head_seq + 1)) row found refl sound.0)
      ]

  -- If SQLite refuses nothing, a durable event of a session that is there is appended, outside a
  -- transaction, under the number that follows `head_seq`: the log grows by its row, the head moves
  -- to its number, the transaction is closed, and the observer gets the stamped event.
  pub append_lem :
      (c : Connection) (session : SessionId) (ts : ℕ) (event : Event) (row : SessionRow)
      → IsGapless c.db
      → c.saved ≡ none
      → find c.db.sessions session ≡ some row
      → is_some (seq_of event) ≡ true
      → let seq = row.head_seq + 1 in
        let stamped = with_seq event seq in
        let after = append to_json content_json nothing_refused c session ts event in
        (after.result ≡ inr seq)
        × (after.echo ≡ some (session, stamped))
        × (after.conn.saved ≡ none)
        × (after.conn.db.events ≡ c.db.events ++ row_of to_json session ts seq stamped ∷ [])
        × (after.conn.db.sessions ≡ put c.db.sessions session (record row { head_seq = seq }))
  unfolding append begin insert_event commit
  append_lem c session ts event row gapless idle found durable =
      let seq = row.head_seq + 1 in
      let stamped = with_seq event seq in
      let new = row_of to_json session ts seq stamped in
      let db1 = record c.db { events = c.db.events ++ new ∷ [] } in
      let (sessions, events) =
        log-advanced content_json db1 (project content_json session ts stamped) stamped session seq
          row found in
      let log : IsLog (some row) (numbers session c.db.events) =
        subst (λ o. IsLog o (numbers session c.db.events)) found (gapless session) in
      let free = next_free session row c.db.events log in
      ground (arith, idle, found, durable, free, sessions, events)
