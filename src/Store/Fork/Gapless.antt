-- ===== src/Store/Fork/Gapless.antt =====
-- A fork keeps the numbering of every session (crates/kn9t-store/src/fork.rs).
use kn9t.Prelude.{
  Bool, ℕ, suc, ◌+◌, ◌-◌, ◌≡◌, refl, sym, ap, ◌∙◌, String, Option, none, some, Bool-cases, inl, inr,
  List, [], ◌∷◌, ◌++◌, map, map-append, keep, keep-append, append-nil, upto, length, str_eq, eq_iff,
  if◌then◌else◌, arith,
}
use kn9t.Prelude.Table.{find, put, find-put}
use kn9t.Core.Message.{SessionId, Content}
use kn9t.Core.Model.{ModelRef}
use kn9t.Core.Event.{Event}
use kn9t.Store.Database.{SessionRow, EventRow, Db, Connection}
use kn9t.Store.Session.Gapless.{is_of, numbers, IsLog, IsGapless, transfer-IsLog}
use kn9t.Store.Fork.{
  ForkRequest, fork_snapshot, copy_rows, seq_map, copied_row, forked_row, fork_row, fork_session,
}
use kn9t.Store.Fork.Copies.{IsCopy, IsForked, fork_session_lem}

pub numbers-append_all :
    (session : String) (xs ys : List EventRow)
    → numbers session (xs ++ ys) ≡ numbers session xs ++ numbers session ys
numbers-append_all session xs ys =
    ap (map (λ r. r.seq)) (keep-append (is_of session) xs ys)
    ∙ map-append (λ r. r.seq) (keep (is_of session) xs) (keep (is_of session) ys)

-- The numbers of rows that belong to one session.
abbrev pub own : (new_id session : String) → List ℕ → List ℕ
own new_id session ns = if str_eq new_id session then ns else []

module _ (to_json : Event → String) (of_json : String → Option Event)
    (content_json : List Content → String) (new_id : SessionId) (seqs : ℕ → Option ℕ) where
  numbers-copy :
      (session : String) (i : ℕ) (rows new : List EventRow)
      → IsCopy to_json of_json content_json new_id seqs i rows new
      → numbers session new ≡ own new_id session (upto (i + 1) (length rows))
  unfolding copied_row
  numbers-copy session i [] [] copy = ground arith
  numbers-copy session i [] (n ∷ new) copy = absurd copy
  numbers-copy session i (row ∷ rows) [] copy = absurd copy
  numbers-copy session i (row ∷ rows) (n ∷ new) ((event, parsed, e), copy) =
      let next : suc (i + 1) ≡ i + 1 + 1 = omega arith in
      let rest =
        numbers-copy session (i + 1) rows new copy
        ∙ ap (λ k. own new_id session (upto k (length rows))) (sym next) in
      let id : n.session_id ≡ new_id = ap (λ (r : EventRow). r.session_id) e in
      let seq : n.seq ≡ i + 1 = ap (λ (r : EventRow). r.seq) e in ground (arith, rest, id, seq)

module _ (to_json : Event → String) (of_json : String → Option Event)
    (content_json : List Content → String) (model_json : ModelRef → String)
    (model_of_json : String → Option ModelRef) where
  forked-IsGapless :
      (before after : Db) (r : ForkRequest)
      → IsForked to_json of_json content_json model_json model_of_json before r after
      → IsGapless before
      → IsGapless after
  unfolding forked_row fork_row
  forked-IsGapless before after r f gapless session =
      let rows = copy_rows before r in
      let row = fork_row model_json r f.model in
      let moved : SessionRow = record row { head_seq = length rows } in
      let first = forked_row to_json r (fork_snapshot before r f.model) in
      let found =
        ap (λ t. find t session) f.sessions
        ∙ find-put (put before.sessions r.new_id row) r.new_id session moved in
      let found_before = find-put before.sessions r.new_id session row in
      let ns =
        ap (numbers session) f.events ∙ numbers-append_all session before.events (first ∷ f.new) in
      let copies =
        numbers-copy to_json of_json content_json r.new_id (seq_map 0 rows) session 0 rows f.new
          f.copy in
      elim (Bool-cases (str_eq r.new_id session)) [
        | inl same ↦
            let id : r.new_id ≡ session = ground (arith, same, eq_iff r.new_id session) in
            let empty : numbers session before.events ≡ [] =
              transfer-IsLog (ap (find before.sessions) (sym id) ∙ f.was_free) refl
                (gapless session) in
            let here : find after.sessions session ≡ some moved = ground (arith, found, same) in
            let all : numbers session after.events ≡ 0 ∷ upto 1 (length rows) =
              ground (arith, ns, empty, copies, same) in
            let all_of : suc (length rows) ≡ suc (length rows) - 0 = omega arith in
            let log : IsLog (some moved) (0 ∷ upto 1 (length rows)) =
              (0, omega arith, ap (upto 0) all_of) in
            transfer-IsLog (sym here) (sym all) log
        | inr apart ↦
            let kept : find before.sessions session ≡ find after.sessions session =
              ground (arith, found, found_before, apart) in
            let all : numbers session before.events ≡ numbers session after.events =
              ground (arith, ns, copies, apart, append-nil (numbers session before.events)) in
            transfer-IsLog kept all (gapless session)
      ]

  -- A fork that succeeds leaves the log of every session without a hole, from 0 or 1 up to its
  -- head_seq, if that was so before, and closes its transaction.
  pub fork_session-IsGapless :
      (refused : Bool) (c : Connection) (r : ForkRequest)
      → let after =
          fork_session to_json of_json content_json model_json model_of_json refused c r in
        after.0 ≡ none → IsGapless c.db → IsGapless after.1.db × (after.1.saved ≡ none)
  fork_session-IsGapless refused c r h gapless =
      let after = fork_session to_json of_json content_json model_json model_of_json refused c r in
      let (saved, forked) =
        fork_session_lem to_json of_json content_json model_json model_of_json refused c r h in
      (forked-IsGapless c.db after.1.db r forked gapless, saved)
