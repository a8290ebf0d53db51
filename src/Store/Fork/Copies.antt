-- ===== src/Store/Fork/Copies.antt =====
-- The log that a fork begins with (crates/kn9t-store/src/fork.rs).
use kn9t.Prelude.{
  ◌==◌, suc, map, get_elem?, some, Bool, ℕ, ◌+◌, ◌≡◌, refl, sym, ap, ◌∙◌, subst, String, false,
  Option, none, some, Option-cases, Bool-cases, ◌⊎◌, inl, inr, List, [], ◌∷◌, ◌++◌, keep,
  keep-append, any, length, append_assoc, append-nil, eq_refl, arith,
}
use kn9t.Prelude.Table.{find, put, find-put}
use kn9t.Core.Message.{SessionId, Content}
use kn9t.Core.Model.{ModelRef}
use kn9t.Core.Event.{Event, with_seq}
use kn9t.Store.Database.{
  SessionRow, EventRow, Db, Connection, begin, commit, has_key, insert_event, set_head_seq,
}
use kn9t.Store.Project.{project}
use kn9t.Store.Session.Gapless.{log-write_rows}
use kn9t.Store.Snapshot.{order_by_seq}
use kn9t.Store.Fork.{
  ForkErr, ForkRequest, fork_snapshot, is_copied, is_copied_kind, copy_rows, seq_map, mapped,
  remap_event_seq, or_stop, copied_row, copy_event, copy_events, forked_row, fork_row,
  insert_session, fork_head, fork_begin, ended, copied, fork_session,
}

pub insert_event_lem :
    (db : Db) (row : EventRow)
    → (insert_event db row ≡ none)
      ⊎ (insert_event db row ≡ some (record db { events = db.events ++ row ∷ [] }))
unfolding insert_event
insert_event_lem db row = elim (Bool-cases (any (has_key row.session_id row.seq) db.events)) [
  | inl e ↦ inl (ground (arith, e))
  | inr e ↦ inr (ground (arith, e))
]

or_stop_lem :
    (x : Option ForkErr × Db) (next : Db → Option ForkErr × Db)
    → (or_stop x next).0 ≡ none
    → (x.0 ≡ none) × (or_stop x next ≡ next x.1)
unfolding or_stop
or_stop_lem (some e, db) next h = absurd (ground (arith, h))
or_stop_lem (none, db) next h = (refl, refl)

module _ (to_json : Event → String) (of_json : String → Option Event)
    (content_json : List Content → String) (new_id : SessionId) (seqs : ℕ → Option ℕ) where
  -- The rows `new` are those of the origin, renumbered from `i + 1` on, with their ranges remapped.
  abbrev pub IsCopy : (i : ℕ) → (rows new : List EventRow) → Type 0
  IsCopy i [] [] = Unit
  IsCopy i [] (n ∷ new) = ⊥
  IsCopy i (row ∷ rows) [] = ⊥
  IsCopy i (row ∷ rows) (n ∷ new) =
      ((event : Event) × (of_json row.payload ≡ some event)
        × (n ≡ copied_row to_json new_id row (i + 1) (remap_event_seq event (i + 1) seqs)))
      × IsCopy (i + 1) rows new

  copy_event_lem :
      (db : Db) (row : EventRow) (n : ℕ)
      → let after = copy_event to_json of_json content_json new_id seqs db row n in
        after.0 ≡ none
        → (event : Event) × (of_json row.payload ≡ some event)
          × (after.1.events
              ≡ db.events ++ copied_row to_json new_id row n (remap_event_seq event n seqs) ∷ [])
          × (after.1.sessions ≡ db.sessions)
  unfolding copy_event copied_row
  copy_event_lem db row n h = elim (Option-cases (of_json row.payload)) [
    | inl e ↦ absurd (ground (arith, e, h))
    | inr (event, e) ↦
        let new_row = copied_row to_json new_id row n (remap_event_seq event n seqs) in
        let db' = record db { events = db.events ++ new_row ∷ [] } in
        elim (insert_event_lem db new_row) [
          | inl i ↦ absurd (ground (arith, e, i, h))
          | inr i ↦ elim (Option-cases (of_json new_row.payload)) [
            | inl d ↦ absurd (ground (arith, e, i, d, h))
            | inr (event', d) ↦
                let (kept, written) =
                  log-write_rows db' (project content_json new_id row.ts event') in
                (event, e, ground (arith, e, i, d, written), ground (arith, e, i, d, kept))
          ]
        ]
  ]

  copy_events_lem :
      (i : ℕ) (rows : List EventRow) (db : Db)
      → let after = copy_events to_json of_json content_json new_id seqs i rows db in
        after.0 ≡ none
        → (new : List EventRow) × (after.1.events ≡ db.events ++ new)
          × (after.1.sessions ≡ db.sessions)
          × IsCopy i rows new
  unfolding copy_events
  copy_events_lem i [] db h = ([], sym (append-nil db.events), refl, tt)
  copy_events_lem i (row ∷ rows) db h =
      let step = copy_event to_json of_json content_json new_id seqs db row (i + 1) in
      let more = copy_events to_json of_json content_json new_id seqs (i + 1) rows in
      let (h1, e) = or_stop_lem step more h in
      let (event, parsed, added, kept) = copy_event_lem db row (i + 1) h1 in
      let (new, more_added, more_kept, copy) =
        copy_events_lem (i + 1) rows step.1 (ap (λ (x : Option ForkErr × Db). x.0) (sym e) ∙ h) in
      let n = copied_row to_json new_id row (i + 1) (remap_event_seq event (i + 1) seqs) in
      (
        n ∷ new,
        ap (λ (x : Option ForkErr × Db). x.1.events) e
            ∙ more_added
            ∙ ap (λ l. l ++ new) added
            ∙ append_assoc db.events (n ∷ []) new,
        ap (λ (x : Option ForkErr × Db). x.1.sessions) e ∙ more_kept ∙ kept,
        ((event, parsed, refl), copy),
      )

module _ (to_json : Event → String) (model_json : ModelRef → String)
    (model_of_json : String → Option ModelRef) where
  -- The head of a fork: its session, and the event that it begins with.
  fork_head_lem :
      (db : Db) (r : ForkRequest) (model : ModelRef)
      → let after = fork_head to_json model_json model_of_json db r model in
        after.0 ≡ none
        → (find db.sessions r.new_id ≡ none)
          × (after.1.sessions ≡ put db.sessions r.new_id (fork_row model_json r model))
          × (after.1.events ≡ db.events ++ forked_row to_json r (fork_snapshot db r model) ∷ [])
  unfolding fork_head insert_session
  fork_head_lem db r model h = elim (Option-cases (find db.sessions r.new_id)) [
    | inr (row, e) ↦ absurd (ground (arith, e, h))
    | inl e ↦
        let sessions = put db.sessions r.new_id (fork_row model_json r model) in
        let db' = record db { sessions = sessions } in
        elim (insert_event_lem db' (forked_row to_json r (fork_snapshot db r model))) [
          | inl i ↦ absurd (ground (arith, e, i, h))
          | inr i ↦ (e, ground (arith, e, i), ground (arith, e, i))
        ]
  ]

  fork_begin_lem :
      (db : Db) (r : ForkRequest)
      → let after = fork_begin to_json model_json model_of_json db r in
        after.0 ≡ none
        → (model : ModelRef) × (find db.sessions r.new_id ≡ none)
          × (after.1.sessions ≡ put db.sessions r.new_id (fork_row model_json r model))
          × (after.1.events ≡ db.events ++ forked_row to_json r (fork_snapshot db r model) ∷ [])
  unfolding fork_begin
  fork_begin_lem db r h = elim (Option-cases (find db.sessions r.origin)) [
    | inl e ↦ absurd (ground (arith, e, h))
    | inr (row, e) ↦ elim (Option-cases row.model_at_fork) [
      | inl f ↦ absurd (ground (arith, e, f, h))
      | inr (json, f) ↦ elim (Option-cases (model_of_json json)) [
        | inl g ↦ absurd (ground (arith, e, f, g, h))
        | inr (model, g) ↦
            let same : fork_begin to_json model_json model_of_json db r
                ≡ fork_head to_json model_json model_of_json db r model =
              ground (arith, e, f, g) in
            let first = λ (x : Option ForkErr × Db). x.0 in
            let (free, sessions, events) = fork_head_lem db r model (ap first (sym same) ∙ h) in
            (
              model,
              free,
              ap (λ (x : Option ForkErr × Db). x.1.sessions) same ∙ sessions,
              ap (λ (x : Option ForkErr × Db). x.1.events) same ∙ events,
            )
      ]
    ]
  ]

forked_kind : is_copied_kind "SessionForked" ≡ false
unfolding is_copied_kind
forked_kind = refl

-- The event that a fork begins with is not copied.
pub copy_rows-forked :
    (db db' : Db) (r : ForkRequest) (new : EventRow)
    → new.kind ≡ "SessionForked"
    → db'.events ≡ db.events ++ new ∷ []
    → copy_rows db' r ≡ copy_rows db r
unfolding copy_rows is_copied
copy_rows-forked db db' r new kind e =
    let p = is_copied r.origin r.origin_seq in
    let never : is_copied_kind new.kind ≡ false = ap is_copied_kind kind ∙ forked_kind in
    let dropped : keep p (new ∷ []) ≡ [] = ground (arith, never) in
    ap (λ l. order_by_seq (keep p l)) e
    ∙ ap order_by_seq (
        keep-append p db.events (new ∷ [])
        ∙ ap (λ l. keep p db.events ++ l) dropped
        ∙ append-nil (keep p db.events))

-- `n` is where the row with the number `seq` stands, counted from 1, or `seq` itself if there is none.
abbrev pub IsPlace : (rows : List EventRow) → (seq n : ℕ) → Type 0
IsPlace rows seq n =
    ((j : ℕ) × (get_elem? (map (λ r. r.seq) rows) j ≡ some seq) × (n ≡ suc j))
    ⊎ (any (λ r. r.seq == seq) rows ≡ false) × (n ≡ seq)

-- A compaction's range is moved to the places of the rows that it names; another event is kept.
abbrev pub IsRemapped : (rows : List EventRow) → Event → (n : ℕ) → Event → Type 0
IsRemapped rows (Event.compacted seq replaced summary) n event =
    (start : ℕ) × (end : ℕ) × (event
      ≡ Event.compacted n (record { start = start; end = end }) summary)
    × IsPlace rows replaced.start start
    × IsPlace rows replaced.end end
IsRemapped rows e n event = event ≡ with_seq e n

seq_map_cases :
    (i : ℕ) (rows : List EventRow) (seq : ℕ)
    → ((j : ℕ) × (get_elem? (map (λ r. r.seq) rows) j ≡ some seq)
        × (seq_map i rows seq ≡ some (i + suc j)))
      ⊎ (any (λ r. r.seq == seq) rows ≡ false) × (seq_map i rows seq ≡ none)
unfolding seq_map
seq_map_cases i [] seq = inr (refl, refl)
seq_map_cases i (row ∷ rows) seq = elim (seq_map_cases (i + 1) rows seq) [
  | inl (j, here, found) ↦
      let place : i + 1 + suc j ≡ i + suc (suc j) = omega arith in
      inl (suc j, here, ground (arith, found, place))
  | inr (absent, missing) ↦ elim (Bool-cases (row.seq == seq)) [
    | inl same ↦
        let e : row.seq ≡ seq = ground (arith, same) in
        let place : i + 1 ≡ i + suc 0 = omega arith in
        inl (0, ap some e, ground (arith, missing, same, place))
    | inr differs ↦ inr (ground (arith, differs, absent), ground (arith, missing, differs))
  ]
]

mapped-IsPlace : (rows : List EventRow) (seq : ℕ) → IsPlace rows seq (mapped (seq_map 0 rows) seq)
unfolding mapped
mapped-IsPlace rows seq = elim (seq_map_cases 0 rows seq) [
  | inl (j, here, found) ↦ inl (j, here, ground (arith, found))
  | inr (absent, missing) ↦ inr (absent, ground (arith, missing))
]

remap_event_seq-IsRemapped :
    (rows : List EventRow) (event : Event) (n : ℕ)
    → IsRemapped rows event n (remap_event_seq event n (seq_map 0 rows))
unfolding remap_event_seq
remap_event_seq-IsRemapped rows (Event.compacted seq replaced summary) n = (
  mapped (seq_map 0 rows) replaced.start,
  mapped (seq_map 0 rows) replaced.end,
  refl,
  mapped-IsPlace rows replaced.start,
  mapped-IsPlace rows replaced.end,
)
remap_event_seq-IsRemapped rows e n = refl

ended_lem :
    (c : Connection) (x : Option ForkErr × Db)
    → (ended c x).0 ≡ none
    → (x.0 ≡ none) × ((ended c x).1.db ≡ x.1) × ((ended c x).1.saved ≡ none)
unfolding ended commit
ended_lem c (some e, db) h = absurd (ground (arith, h))
ended_lem c (none, db) h = (refl, refl, refl)

log-set_head_seq :
    (db : Db) (id : SessionId) (row : SessionRow) (head : ℕ)
    → find db.sessions id ≡ some row
    → ((set_head_seq db id head).sessions ≡ put db.sessions id (record row { head_seq = head }))
      × ((set_head_seq db id head).events ≡ db.events)
unfolding set_head_seq
log-set_head_seq db id row head found = (ground (arith, found), ground (arith, found))

module _ (to_json : Event → String) (of_json : String → Option Event)
    (content_json : List Content → String) (model_json : ModelRef → String)
    (model_of_json : String → Option ModelRef) where
  -- What a fork that succeeds has written.
  pub record IsForked (before : Db) (r : ForkRequest) (after : Db) : Type 0 where
    pub model : ModelRef
    pub new : List EventRow
    pub was_free : find before.sessions r.new_id ≡ none
    pub sessions : after.sessions ≡ (
        let row = fork_row model_json r model in
        put
          (put before.sessions r.new_id row)
          r.new_id
          (record row { head_seq = length (copy_rows before r) }))
    pub events :
        after.events ≡ before.events ++ forked_row to_json r (fork_snapshot before r model) ∷ new
    pub remapped :
        (event : Event) (n : ℕ)
        → IsRemapped
            (copy_rows before r)
            event
            n
            (remap_event_seq event n (seq_map 0 (copy_rows before r)))
    pub copy :
        IsCopy to_json of_json content_json r.new_id
          (seq_map 0 (copy_rows before r))
          0
          (copy_rows before r)
          new

  -- The copy of `rows`, as `copied` makes it.
  abbrev copying : ForkRequest → Db → List EventRow → Option ForkErr × Db
  copying r db rows =
      or_stop (copy_events to_json of_json content_json r.new_id (seq_map 0 rows) 0 rows db)
        (λ db'. (none, set_head_seq db' r.new_id (length rows)))

  copying_lem :
      (before db : Db) (r : ForkRequest) (model : ModelRef)
      → find before.sessions r.new_id ≡ none
      → db.sessions ≡ put before.sessions r.new_id (fork_row model_json r model)
      → db.events ≡ before.events ++ forked_row to_json r (fork_snapshot before r model) ∷ []
      → (copying r db (copy_rows before r)).0 ≡ none
      → IsForked before r (copying r db (copy_rows before r)).1
  copying_lem before db r model free sessions events h =
      let rows = copy_rows before r in
      let row = fork_row model_json r model in
      let first = forked_row to_json r (fork_snapshot before r model) in
      let loop = copy_events to_json of_json content_json r.new_id (seq_map 0 rows) 0 rows db in
      let finish : Db → Option ForkErr × Db =
        λ db'. (none, set_head_seq db' r.new_id (length rows)) in
      let (h1, e) = or_stop_lem loop finish h in
      let (new, added, kept, copy) =
        copy_events_lem to_json of_json content_json r.new_id (seq_map 0 rows) 0 rows db h1 in
      let there : find loop.1.sessions r.new_id ≡ some row =
        ap (λ t. find t r.new_id) (kept ∙ sessions)
        ∙ find-put before.sessions r.new_id r.new_id row
        ∙ ground (arith, eq_refl r.new_id) in
      let (moved, same) = log-set_head_seq loop.1 r.new_id row (length rows) there in
      record {
        model = model;
        new = new;
        was_free = free;
        sessions =
            ap (λ (x : Option ForkErr × Db). x.1.sessions) e
            ∙ moved
            ∙ ap (λ t. put t r.new_id (record row { head_seq = length rows })) (kept ∙ sessions);
        events =
            ap (λ (x : Option ForkErr × Db). x.1.events) e
            ∙ same
            ∙ added
            ∙ ap (λ l. l ++ new) events
            ∙ append_assoc before.events (first ∷ []) new;
        remapped = remap_event_seq-IsRemapped rows;
        copy = copy;
      }

  copied_lem :
      (before db : Db) (r : ForkRequest) (model : ModelRef)
      → find before.sessions r.new_id ≡ none
      → db.sessions ≡ put before.sessions r.new_id (fork_row model_json r model)
      → db.events ≡ before.events ++ forked_row to_json r (fork_snapshot before r model) ∷ []
      → let after = copied to_json of_json content_json model_json model_of_json r db in
        after.0 ≡ none → IsForked before r after.1
  unfolding copied forked_row
  copied_lem before db r model free sessions events =
      let same =
        copy_rows-forked before db r (forked_row to_json r (fork_snapshot before r model)) refl
          events in
      subst
        (λ (rows : List EventRow).
          (copying r db rows).0 ≡ none → IsForked before r (copying r db rows).1)
        (sym same) (copying_lem before db r model free sessions events)

  fork_session-not_refused :
      (refused : Bool) (c : Connection) (r : ForkRequest)
      → (fork_session to_json of_json content_json model_json model_of_json refused c r).0 ≡ none
      → refused ≡ false
  unfolding fork_session
  fork_session-not_refused refused c r h = elim (Bool-cases refused) [
    | inl stops ↦ absurd (ground (arith, stops, h))
    | inr goes ↦ goes
  ]

  -- A fork that succeeds has closed its transaction and has added to the log, behind the `SessionForked` event with
  -- the number 0, the messages, model changes and compactions of the origin up to `origin_seq`, in their
  -- order, renumbered from 1 on, with the ranges of the compactions remapped, and nothing else; the
  -- new session, whose name was free, has the number of copies as its head.
  pub fork_session_lem :
      (refused : Bool) (c : Connection) (r : ForkRequest)
      → let after =
          fork_session to_json of_json content_json model_json model_of_json refused c r in
        after.0 ≡ none → (after.1.saved ≡ none) × IsForked c.db r after.1.db
  unfolding fork_session begin
  fork_session_lem refused c r h = elim (Option-cases c.saved) [
    | inr (old, e) ↦ absurd (ground (arith, e, h))
    | inl e ↦
        let begun : Connection = record { db = c.db; saved = some c.db } in
        let start = fork_begin to_json model_json model_of_json c.db r in
        let next = copied to_json of_json content_json model_json model_of_json r in
        let whole =
          fork_session to_json of_json content_json model_json model_of_json refused c r in
        let same : whole ≡ ended begun (or_stop start next) =
          ground (arith, e, fork_session-not_refused refused c r h) in
        let (h1, db, saved) =
          ended_lem begun (or_stop start next)
            (ap (λ (x : Option ForkErr × Connection). x.0) (sym same) ∙ h) in
        let (h2, q) = or_stop_lem start next h1 in
        let (model, free, sessions, events) =
          fork_begin_lem to_json model_json model_of_json c.db r h2 in
        let done =
          copied_lem c.db start.1 r model free sessions events
            (ap (λ (x : Option ForkErr × Db). x.0) (sym q) ∙ h1) in
        (
          ap (λ (x : Option ForkErr × Connection). x.1.saved) same ∙ saved,
          subst (IsForked c.db r)
              (sym (
                ap (λ (x : Option ForkErr × Connection). x.1.db) same
                ∙ db
                ∙ ap (λ (x : Option ForkErr × Db). x.1) q))
              done,
        )
  ]
