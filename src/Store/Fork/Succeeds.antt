-- ===== src/Store/Fork/Succeeds.antt =====
-- When a fork succeeds (crates/kn9t-store/src/fork.rs): the numbers that the copies take are free.
use kn9t.Prelude.{
  ℕ, suc, ◌+◌, ◌≡◌, refl, sym, ap, ◌∙◌, subst, String, false, Option, none, some, List, [], ◌∷◌,
  ◌++◌, upto, any, length, All, ◌==◌, eq_refl, arith,
}
use kn9t.Prelude.Table.{find, put}
use kn9t.Core.Message.{SessionId, Content}
use kn9t.Core.Model.{ModelRef}
use kn9t.Core.Event.{Event}
use kn9t.Store.Database.{
  SessionRow, EventRow, Db, Connection, begin, has_key, insert_event, set_head_seq,
}
use kn9t.Store.Project.{project, write_rows}
use kn9t.Store.Session.Gapless.{
  numbers, IsGapless, transfer-IsLog, any-has_key, any-upto, upto-end, log-write_rows,
}
use kn9t.Store.Fork.{
  ForkErr, ForkRequest, fork_snapshot, copy_rows, seq_map, remap_event_seq, or_stop, copied_row,
  copy_event, copy_events, forked_row, fork_row, insert_session, fork_head, fork_begin, ended,
  copied, fork_session,
}
use kn9t.Store.Fork.Copies.{IsForked, fork_session_lem, copy_rows-forked}
use kn9t.Store.Fork.Gapless.{numbers-append_all}

-- The number `n` of the session is free.
insert_event-free :
    (db : Db) (row : EventRow) (k : ℕ)
    → numbers row.session_id db.events ≡ upto 0 k
    → row.seq ≡ k
    → insert_event db row ≡ some (record db { events = db.events ++ row ∷ [] })
unfolding insert_event
insert_event-free db row k ns seq =
    let free : any (has_key row.session_id row.seq) db.events ≡ false =
      any-has_key row.session_id row.seq db.events
      ∙ ap (any (λ i. i == row.seq)) ns
      ∙ any-upto 0 k row.seq (omega (arith, seq)) in
    ground (arith, free)

or_stop-none :
    (x : Option ForkErr × Db) (next : Db → Option ForkErr × Db)
    → x.0 ≡ none
    → or_stop x next ≡ next x.1
unfolding or_stop
or_stop-none (some e, db) next h = absurd (ground (arith, h))
or_stop-none (none, db) next h = refl

ended-none : (c : Connection) (x : Option ForkErr × Db) → x.0 ≡ none → (ended c x).0 ≡ none
unfolding ended
ended-none c (some e, db) h = absurd (ground (arith, h))
ended-none c (none, db) h = refl

-- The log of `id` has the numbers from 0 on, below `k`.
abbrev HasCount : SessionId → ℕ → Db → Type 0
HasCount id k db = numbers id db.events ≡ upto 0 k

HasCount-snoc :
    (id : SessionId) (k : ℕ) (db after : Db) (row : EventRow)
    → row.session_id ≡ id
    → row.seq ≡ k
    → after.events ≡ db.events ++ row ∷ []
    → HasCount id k db
    → HasCount id (suc k) after
HasCount-snoc id k db after row same seq e ns =
    let last : numbers id (row ∷ []) ≡ k ∷ [] = ground (arith, same, seq, eq_refl id) in
    let at : k ≡ 0 + k = omega arith in
    ap (numbers id) e
    ∙ numbers-append_all id db.events (row ∷ [])
    ∙ ap (λ l. l ++ numbers id (row ∷ [])) ns
    ∙ ap (λ l. upto 0 k ++ l) (last ∙ ap (λ i. i ∷ []) at)
    ∙ upto-end 0 k

module _ (to_json : Event → String) (of_json : String → Option Event)
    (content_json : List Content → String) where
  -- The payload is that of an event, which is read back from its JSON under whatever number it is copied.
  abbrev pub IsReadable : EventRow → Type 0
  IsReadable row =
      (event : Event) × (of_json row.payload ≡ some event)
      × ((n : ℕ) (seqs : ℕ → Option ℕ)
          → of_json (to_json (remap_event_seq event n seqs)) ≡ some (remap_event_seq event n seqs))

  module _ (new_id : SessionId) (seqs : ℕ → Option ℕ) where
    copy_event_succeeds :
        (db : Db) (row : EventRow) (n : ℕ)
        → IsReadable row
        → HasCount new_id n db
        → let after = copy_event to_json of_json content_json new_id seqs db row n in
          (after.0 ≡ none) × HasCount new_id (suc n) after.1
    unfolding copy_event copied_row
    copy_event_succeeds db row n (event, e, reads_back) ns =
        let moved = remap_event_seq event n seqs in
        let new_row = copied_row to_json new_id row n moved in
        let db' = record db { events = db.events ++ new_row ∷ [] } in
        let i : insert_event db new_row ≡ some db' = insert_event-free db new_row n ns refl in
        let d : of_json new_row.payload ≡ some moved = reads_back n seqs in
        let after = copy_event to_json of_json content_json new_id seqs db row n in
        let all : after ≡ (none, write_rows db' (project content_json new_id row.ts moved)) =
          ground (arith, e, i, d) in
        let (kept, written) = log-write_rows db' (project content_json new_id row.ts moved) in
        (
          ap (λ (x : Option ForkErr × Db). x.0) all,
          HasCount-snoc new_id n db after.1 new_row refl refl
              (ap (λ (x : Option ForkErr × Db). x.1.events) all ∙ written) ns,
        )

    copy_events_succeeds :
        (i : ℕ) (rows : List EventRow) (db : Db)
        → All IsReadable rows
        → HasCount new_id (i + 1) db
        → (copy_events to_json of_json content_json new_id seqs i rows db).0 ≡ none
    unfolding copy_events
    copy_events_succeeds i [] db readable ns = refl
    copy_events_succeeds i (row ∷ rows) db (here, later) ns =
        let step = copy_event to_json of_json content_json new_id seqs db row (i + 1) in
        let more = copy_events to_json of_json content_json new_id seqs (i + 1) rows in
        let (h, count) = copy_event_succeeds db row (i + 1) here ns in
        let next : suc (i + 1) ≡ i + 1 + 1 = omega arith in
        ap (λ (x : Option ForkErr × Db). x.0) (or_stop-none step more h)
        ∙ copy_events_succeeds (i + 1) rows step.1 later
            (subst (λ k. HasCount new_id k step.1) next count)

  module _ (model_json : ModelRef → String) (model_of_json : String → Option ModelRef) where
    fork_begin_succeeds :
        (db : Db) (r : ForkRequest) (row : SessionRow) (json : String) (model : ModelRef)
        → find db.sessions r.origin ≡ some row
        → row.model_at_fork ≡ some json
        → model_of_json json ≡ some model
        → find db.sessions r.new_id ≡ none
        → HasCount r.new_id 0 db
        → let after = fork_begin to_json model_json model_of_json db r in
          (after.0 ≡ none)
          × (after.1.events ≡ db.events ++ forked_row to_json r (fork_snapshot db r model) ∷ [])
          × HasCount r.new_id 1 after.1
    unfolding fork_begin fork_head insert_session forked_row
    fork_begin_succeeds db r row json model found has parsed free ns =
        let sessions = put db.sessions r.new_id (fork_row model_json r model) in
        let db' = record db { sessions = sessions } in
        let first = forked_row to_json r (fork_snapshot db r model) in
        let db'' = record db' { events = db.events ++ first ∷ [] } in
        let i : insert_event db' first ≡ some db'' = insert_event-free db' first 0 ns refl in
        let after = fork_begin to_json model_json model_of_json db r in
        let all : after ≡ (none, db'') = ground (arith, found, has, parsed, free, i) in
        let events : after.1.events ≡ db.events ++ first ∷ [] =
          ap (λ (x : Option ForkErr × Db). x.1.events) all in
        (
          ap (λ (x : Option ForkErr × Db). x.0) all,
          events,
          HasCount-snoc r.new_id 0 db after.1 first refl refl events ns,
        )

    copied_succeeds :
        (before db : Db) (r : ForkRequest) (snap_row : EventRow)
        → snap_row.kind ≡ "SessionForked"
        → db.events ≡ before.events ++ snap_row ∷ []
        → All IsReadable (copy_rows before r)
        → HasCount r.new_id 1 db
        → (copied to_json of_json content_json model_json model_of_json r db).0 ≡ none
    unfolding copied
    copied_succeeds before db r snap_row kind e readable ns =
        let rows = copy_rows db r in
        let same = copy_rows-forked before db r snap_row kind e in
        let loop = copy_events to_json of_json content_json r.new_id (seq_map 0 rows) 0 rows db in
        let finish : Db → Option ForkErr × Db =
          λ db'. (none, set_head_seq db' r.new_id (length rows)) in
        let one : 1 ≡ 0 + 1 = omega arith in
        ap (λ (x : Option ForkErr × Db). x.0)
          (or_stop-none loop finish (
            copy_events_succeeds r.new_id (seq_map 0 rows) 0 rows db
              (subst (All IsReadable) (sym same) readable)
              (subst (λ k. HasCount r.new_id k db) one ns)))

    pub fork_session_succeeds :
        (c : Connection) (r : ForkRequest) (row : SessionRow) (json : String) (model : ModelRef)
        → c.saved ≡ none
        → IsGapless c.db
        → find c.db.sessions r.origin ≡ some row
        → row.model_at_fork ≡ some json
        → model_of_json json ≡ some model
        → find c.db.sessions r.new_id ≡ none
        → All IsReadable (copy_rows c.db r)
        → let after =
            fork_session to_json of_json content_json model_json model_of_json false c r in
          (after.0 ≡ none)
          × (after.1.saved ≡ none)
          × IsForked to_json of_json content_json model_json model_of_json c.db r after.1.db
    unfolding fork_session begin forked_row
    fork_session_succeeds c r row json model outside gapless found has parsed free readable =
        let empty : HasCount r.new_id 0 c.db = transfer-IsLog free refl (gapless r.new_id) in
        let begun : Connection = record { db = c.db; saved = some c.db } in
        let start = fork_begin to_json model_json model_of_json c.db r in
        let next = copied to_json of_json content_json model_json model_of_json r in
        let (h, events, count) =
          fork_begin_succeeds c.db r row json model found has parsed free empty in
        let first = forked_row to_json r (fork_snapshot c.db r model) in
        let body =
          ap (λ (x : Option ForkErr × Db). x.0) (or_stop-none start next h)
          ∙ copied_succeeds c.db start.1 r first refl events readable count in
        let after = fork_session to_json of_json content_json model_json model_of_json false c r in
        let same : after ≡ ended begun (or_stop start next) = ground (arith, outside) in
        let goes =
          ap (λ (x : Option ForkErr × Connection). x.0) same
          ∙ ended-none begun (or_stop start next) body in
        let (saved, forked) =
          fork_session_lem to_json of_json content_json model_json model_of_json false c r goes in
        (goes, saved, forked)
