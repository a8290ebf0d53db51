-- ===== src/Store/Deletion/Lost.antt =====
-- The blobs of a fork that is deleted again (crates/kn9t-store/src/fork.rs and session_delete.rs).
use kn9t.Prelude.{
  Bool, true, ℕ, ◌+◌, ◌≤◌, ◌≡◌, refl, ap, ◌∙◌, String, false, Option, none, some, Option-cases, inl,
  inr, List, [], ◌∷◌, ◌++◌, keep, length, str_eq, arith,
}
use kn9t.Prelude.Table.{Table, find, put, any_value}
use kn9t.Core.Message.{SessionId, Content}
use kn9t.Core.Model.{ModelRef}
use kn9t.Core.Event.{Event}
use kn9t.Store.Database.{EventRow, MessageRow, Blob, Db, Connection, begin, commit, set_head_seq}
use kn9t.Store.Project.{Row, message_row, usage_row, compacted_row, project, write_row, write_rows}
use kn9t.Store.Fork.{
  ForkErr, ForkRequest, fork_snapshot, copy_rows, seq_map, remap_event_seq, or_stop, copied_row,
  copy_event, copy_events, forked_row, fork_row, insert_session, fork_head, fork_begin, ended,
  copied, fork_session,
}
use kn9t.Store.Fork.Copies.{insert_event_lem, fork_session_lem}
use kn9t.Store.Deletion.{is_fork_of, delete_session}
use kn9t.Store.Deletion.Effects.{references, spend, spend-all, delete_session_cases}

blobs-write_rows : (db : Db) (rows : List Row) → (write_rows db rows).blobs ≡ db.blobs
unfolding write_rows write_row
blobs-write_rows db [] = refl
blobs-write_rows db (message_row row ∷ rows) =
    blobs-write_rows (write_row db (message_row row)) rows
blobs-write_rows db (usage_row row ∷ rows) = blobs-write_rows (write_row db (usage_row row)) rows
blobs-write_rows db (compacted_row sid seq start end role content ∷ rows) =
    blobs-write_rows (write_row db (compacted_row sid seq start end role content)) rows

blobs-or_stop :
    (blobs : Table Blob) (x : Option ForkErr × Db) (next : Db → Option ForkErr × Db)
    → x.1.blobs ≡ blobs
    → ((db : Db) → db.blobs ≡ blobs → (next db).1.blobs ≡ blobs)
    → (or_stop x next).1.blobs ≡ blobs
unfolding or_stop
blobs-or_stop blobs (some e, db) next h more = h
blobs-or_stop blobs (none, db) next h more = more db h

blobs-set_head_seq : (db : Db) (id : SessionId) (n : ℕ) → (set_head_seq db id n).blobs ≡ db.blobs
unfolding set_head_seq
blobs-set_head_seq db id n = elim (Option-cases (find db.sessions id)) [
  | inl e ↦ ground (arith, e)
  | inr (row, e) ↦ ground (arith, e)
]

blobs-ended : (c : Connection) (x : Option ForkErr × Db) → (ended c x).1.db.blobs ≡ x.1.blobs
unfolding ended commit
blobs-ended c (some e, db) = refl
blobs-ended c (none, db) = refl

module _ (to_json : Event → String) (of_json : String → Option Event)
    (content_json : List Content → String) where
  blobs-copy_event :
      (new_id : SessionId) (seqs : ℕ → Option ℕ) (db : Db) (row : EventRow) (n : ℕ)
      → (copy_event to_json of_json content_json new_id seqs db row n).1.blobs ≡ db.blobs
  unfolding copy_event copied_row
  blobs-copy_event new_id seqs db row n = elim (Option-cases (of_json row.payload)) [
    | inl e ↦ ground (arith, e)
    | inr (event, e) ↦
        let new_row = copied_row to_json new_id row n (remap_event_seq event n seqs) in
        let db' = record db { events = db.events ++ new_row ∷ [] } in
        elim (insert_event_lem db new_row) [
          | inl i ↦ ground (arith, e, i)
          | inr i ↦ elim (Option-cases (of_json new_row.payload)) [
            | inl d ↦ ground (arith, e, i, d)
            | inr (event', d) ↦
                ground
                  (arith, e, i, d, blobs-write_rows db' (project content_json new_id row.ts event'))
          ]
        ]
  ]

  blobs-copy_events :
      (new_id : SessionId) (seqs : ℕ → Option ℕ) (i : ℕ) (rows : List EventRow) (db : Db)
      → (copy_events to_json of_json content_json new_id seqs i rows db).1.blobs ≡ db.blobs
  unfolding copy_events
  blobs-copy_events new_id seqs i [] db = refl
  blobs-copy_events new_id seqs i (row ∷ rows) db =
      blobs-or_stop db.blobs (copy_event to_json of_json content_json new_id seqs db row (i + 1))
        (copy_events to_json of_json content_json new_id seqs (i + 1) rows)
        (blobs-copy_event new_id seqs db row (i + 1))
        (λ db' h. blobs-copy_events new_id seqs (i + 1) rows db' ∙ h)

  module _ (model_json : ModelRef → String) (model_of_json : String → Option ModelRef) where
    blobs-fork_head :
        (db : Db) (r : ForkRequest) (model : ModelRef)
        → (fork_head to_json model_json model_of_json db r model).1.blobs ≡ db.blobs
    unfolding fork_head insert_session
    blobs-fork_head db r model = elim (Option-cases (find db.sessions r.new_id)) [
      | inr (row, e) ↦ ground (arith, e)
      | inl e ↦
          let db' = record db {
            sessions = put db.sessions r.new_id (fork_row model_json r model);
          } in
          elim (insert_event_lem db' (forked_row to_json r (fork_snapshot db r model))) [
            | inl i ↦ ground (arith, e, i)
            | inr i ↦ ground (arith, e, i)
          ]
    ]

    blobs-fork_begin :
        (db : Db) (r : ForkRequest)
        → (fork_begin to_json model_json model_of_json db r).1.blobs ≡ db.blobs
    unfolding fork_begin
    blobs-fork_begin db r = elim (Option-cases (find db.sessions r.origin)) [
      | inl e ↦ ground (arith, e)
      | inr (row, e) ↦ elim (Option-cases row.model_at_fork) [
        | inl f ↦ ground (arith, e, f)
        | inr (json, f) ↦ elim (Option-cases (model_of_json json)) [
          | inl g ↦ ground (arith, e, f, g)
          | inr (model, g) ↦ ground (arith, e, f, g, blobs-fork_head db r model)
        ]
      ]
    ]

    -- A fork counts no reference.
    pub blobs-fork_session :
        (refused : Bool) (c : Connection) (r : ForkRequest)
        → (fork_session to_json of_json content_json model_json model_of_json refused c
            r).1.db.blobs
          ≡ c.db.blobs
    unfolding fork_session begin copied
    blobs-fork_session true c r = refl
    blobs-fork_session false c r = elim (Option-cases c.saved) [
      | inr (old, e) ↦ ground (arith, e)
      | inl e ↦
          let begun : Connection = record { db = c.db; saved = some c.db } in
          let start = fork_begin to_json model_json model_of_json c.db r in
          let next = copied to_json of_json content_json model_json model_of_json r in
          let all : fork_session to_json of_json content_json model_json model_of_json false c r
              ≡ ended begun (or_stop start next) =
            ground (arith, e) in
          ap (λ (x : Option ForkErr × Connection). x.1.db.blobs) all
          ∙ blobs-ended begun (or_stop start next)
          ∙ blobs-or_stop c.db.blobs start next (blobs-fork_begin c.db r) (λ db h.
            blobs-or_stop c.db.blobs
              (copy_events to_json of_json content_json r.new_id (seq_map 0 (copy_rows db r)) 0
                (copy_rows db r) db)
              (λ db'. (none, set_head_seq db' r.new_id (length (copy_rows db r))))
              (blobs-copy_events r.new_id (seq_map 0 (copy_rows db r)) 0 (copy_rows db r) db ∙ h)
              (λ db' h'. blobs-set_head_seq db' r.new_id (length (copy_rows db r)) ∙ h'))
    ]

    -- If a fork succeeds and has no fork of its own, and the copied messages name a blob at least as
    -- often as the count of its references, then a deletion of the fork deletes the blob, although
    -- the messages of every other session, the origin's among them, are as they were after the fork.
    pub fork_then_delete-loses :
        (refused : Bool) (c : Connection) (r : ForkRequest) (hash : String) (b : Blob)
        → let forked =
            fork_session to_json of_json content_json model_json model_of_json refused c r in
          let after = delete_session none forked.1 r.new_id in
          let own = keep (λ (m : MessageRow). str_eq m.session_id r.new_id) forked.1.db.messages in
          forked.0 ≡ none
          → any_value (is_fork_of r.new_id) forked.1.db.sessions ≡ false
          → find c.db.blobs hash ≡ some b
          → 1 ≤ references hash own
          → b.refcount ≤ references hash own
          → (after.0 ≡ none)
            × (find after.1.db.blobs hash ≡ none)
            × ((s : SessionId)
                → str_eq r.new_id s ≡ false
                → keep (λ m. str_eq m.session_id s) after.1.db.messages
                  ≡ keep (λ m. str_eq m.session_id s) forked.1.db.messages)
    fork_then_delete-loses refused c r hash b goes leaf found named low =
        let forked =
          fork_session to_json of_json content_json model_json model_of_json refused c r in
        let own = keep (λ (m : MessageRow). str_eq m.session_id r.new_id) forked.1.db.messages in
        let (saved, copies) =
          fork_session_lem to_json of_json content_json model_json model_of_json refused c r goes in
        elim (delete_session_cases forked.1 r.new_id saved) [
          | inl (forks, same) ↦ absurd (ground (arith, forks, leaf))
          | inr (none_left, done, closed, d, written, unread) ↦ (
            done,
            d.blobs hash
                ∙ ap (λ t. spend (references hash own) (find t hash))
                    (blobs-fork_session refused c r)
                ∙ ap (spend (references hash own)) found
                ∙ spend-all (references hash own) b named low,
            λ s apart. d.messages s ∙ ground (arith, apart),
          )
        ]
