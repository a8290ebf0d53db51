-- ===== src/Store/Session/Gapless.antt =====
-- The numbers of a session's log.
use kn9t.Prelude.{
  ℕ, zero, suc, ◌+◌, ◌-◌, ◌≤◌, ◌≡◌, refl, sym, ap, ◌∙◌, subst, String, Bool, false, Option, none,
  some, List, [], ◌∷◌, ◌++◌, map, map-append, append-nil, keep, keep-append, any, upto, str_eq,
  eq_iff, ◌==◌, inl, inr, if◌then◌else◌, arith, Option-cases, Bool-cases,
}
use kn9t.Prelude.Table.{Table, find, put, find-put}
use kn9t.Core.Message.{Content}
use kn9t.Core.Event.{Event}
use kn9t.Store.Database.{SessionRow, EventRow, Db, Connection, has_key}
use kn9t.Store.Project.{
  Row, message_row, usage_row, compacted_row, write_row, write_rows, incr_blob_refs,
}
use kn9t.Store.Session.{appended_content, count_refs}

abbrev pub is_of : String → EventRow → Bool
is_of session row = str_eq row.session_id session

-- The numbers of a session's events, in the order of their insertion.
abbrev pub numbers : String → List EventRow → List ℕ
numbers session rows = map (λ r. r.seq) (keep (is_of session) rows)

-- The log of a session: it begins at 0 in a fork, else at 1, has no hole, and ends at `head_seq`.
-- No event is kept of a session that is missing.
abbrev pub IsLog : Option SessionRow → List ℕ → Type 0
IsLog none ns = ns ≡ []
IsLog (some row) ns = (first : ℕ) × (first ≤ 1) × (ns ≡ upto first (suc row.head_seq - first))

abbrev pub IsGapless : Db → Type 0
IsGapless db = (session : String) → IsLog (find db.sessions session) (numbers session db.events)

abbrev pub IsSaved : Option Db → Type 0
IsSaved none = Unit
IsSaved (some db) = IsGapless db

abbrev pub IsSound : Connection → Type 0
IsSound c = IsGapless c.db × IsSaved c.saved

pub upto-end : (n k : ℕ) → upto n k ++ (n + k) ∷ [] ≡ upto n (suc k)
upto-end n zero = let e : n + 0 ≡ n = omega arith in ap (λ i. i ∷ []) e
upto-end n (suc k) =
    let e : n + suc k ≡ suc n + k = omega arith in
    ap (λ t. n ∷ t) (ap (λ i. upto (suc n) k ++ i ∷ []) e ∙ upto-end (suc n) k)

pub any-upto : (n k q : ℕ) → n + k ≤ q → any (λ i. i == q) (upto n k) ≡ false
any-upto n zero q h = refl
any-upto n (suc k) q h = ground (arith, any-upto (suc n) k q (omega arith))

pub any-has_key :
    (session : String) (q : ℕ) (rows : List EventRow)
    → any (has_key session q) rows ≡ any (λ i. i == q) (numbers session rows)
unfolding has_key
any-has_key session q [] = refl
any-has_key session q (row ∷ rows) = ground (arith, any-has_key session q rows)

numbers-append :
    (session : String) (rows : List EventRow) (row : EventRow)
    → numbers session (rows ++ row ∷ [])
      ≡ numbers session rows ++ (if str_eq row.session_id session then row.seq ∷ [] else [])
numbers-append session rows row =
    ap (map (λ r. r.seq)) (keep-append (is_of session) rows (row ∷ []))
    ∙ map-append (λ r. r.seq) (keep (is_of session) rows) (keep (is_of session) (row ∷ []))
    ∙ ap (λ t. numbers session rows ++ t) (ground arith)

-- A projection touches neither the sessions nor the log.
pub log-write_rows :
    (db : Db) (rows : List Row)
    → ((write_rows db rows).sessions ≡ db.sessions) × ((write_rows db rows).events ≡ db.events)
unfolding write_rows
log-write_rows db [] = (refl, refl)
log-write_rows db (message_row row ∷ rows) = log-write_rows (write_row db (message_row row)) rows
log-write_rows db (usage_row row ∷ rows) = log-write_rows (write_row db (usage_row row)) rows
log-write_rows db (compacted_row sid seq start end role content ∷ rows) =
    log-write_rows (write_row db (compacted_row sid seq start end role content)) rows

pub log-count_refs :
    (content_json : List Content → String) (db : Db) (event : Event)
    → ((count_refs content_json db event).sessions ≡ db.sessions)
      × ((count_refs content_json db event).events ≡ db.events)
unfolding count_refs incr_blob_refs
log-count_refs content_json db event = elim (Option-cases (appended_content event)) [
  | inl nothing ↦ ground (arith, nothing)
  | inr (content, e) ↦ ground (arith, e)
]

pub transfer-IsLog :
    {o o' : Option SessionRow} {ns ns' : List ℕ} → o ≡ o' → ns ≡ ns' → IsLog o ns → IsLog o' ns'
transfer-IsLog {ns'} eo en log = subst (λ o. IsLog o ns') eo (subst (IsLog _) en log)

-- A log with one more event at its end, and its head moved.
next-IsLog :
    (row : SessionRow) (ns : List ℕ) (seq : ℕ)
    → seq ≡ row.head_seq + 1
    → IsLog (some row) ns
    → IsLog (some (record row { head_seq = seq })) (ns ++ seq ∷ [])
next-IsLog row ns seq next (first, low, these) =
    let k = suc row.head_seq - first in
    let at : seq ≡ first + k = omega arith in
    let more : suc k ≡ suc seq - first = omega arith in
    (
      first,
      low,
      ap (λ l. l ++ seq ∷ []) these
          ∙ ap (λ i. upto first k ++ i ∷ []) at
          ∙ upto-end first k
          ∙ ap (upto first) more,
    )

-- An event is added to the log of a session: what becomes of this log, and of the others.
pub extended-IsLog :
    (sessions : Table SessionRow) (row : SessionRow) (events : List EventRow) (new : EventRow)
    → find sessions new.session_id ≡ some row
    → new.seq ≡ row.head_seq + 1
    → ((session : String) → IsLog (find sessions session) (numbers session events))
    → (session : String)
    → IsLog
        (find (put sessions new.session_id (record row { head_seq = new.seq })) session)
        (numbers session (events ++ new ∷ []))
extended-IsLog sessions row events new found next logs session =
    let moved = record row { head_seq = new.seq } in
    let table = find-put sessions new.session_id session moved in
    let ns = numbers-append session events new in
    elim (Bool-cases (str_eq new.session_id session)) [
      | inl same ↦
          let own : new.session_id ≡ session = ground (arith, eq_iff new.session_id session) in
          let here : find sessions session ≡ some row = ap (find sessions) (sym own) ∙ found in
          let grown : find (put sessions new.session_id moved) session ≡ some moved =
            ground (arith, table, same) in
          let longer : numbers session (events ++ new ∷ [])
              ≡ numbers session events ++ new.seq ∷ [] =
            ground (arith, ns, same) in
          transfer-IsLog (sym grown) (sym longer) (
            next-IsLog row (numbers session events) new.seq next
              (transfer-IsLog here refl (logs session)))
      | inr apart ↦
          let kept : find sessions session ≡ find (put sessions new.session_id moved) session =
            ground (arith, table, apart) in
          let as_was : numbers session events ≡ numbers session (events ++ new ∷ []) =
            ground (arith, ns, apart, append-nil (numbers session events)) in
          transfer-IsLog kept as_was (logs session)
    ]
