-- ===== src/Store/Snapshot/Complete.antt =====
-- The replay leaves out nothing that the client has missed.
use kn9t.Prelude.{
  if◌then◌else◌, true, false, ℕ, zero, suc, ◌+◌, ◌-◌, ◌≤◌, ◌<◌, ◌≡◌, refl, sym, ap, ◌∙◌, subst,
  String, some, List, [], ◌∷◌, map, keep, upto, All, IsRising, upto-IsRising, ltb, arith,
  Bool-cases, inl, inr,
}
use kn9t.Prelude.Table.{find}
use kn9t.Store.Database.{SessionRow, EventRow, Db}
use kn9t.Store.Session.Gapless.{IsLog, IsGapless, numbers}
use kn9t.Store.Snapshot.{
  is_negative, is_after, insert_by_seq, order_by_seq, head_of, read_attach_snapshot,
}

abbrev seqs_of_rows : List EventRow → List ℕ
seqs_of_rows = map (λ r. r.seq)

insert_by_seq-first :
    (row : EventRow) (rows : List EventRow)
    → All (λ n. row.seq < n) (seqs_of_rows rows)
    → insert_by_seq row rows ≡ row ∷ rows
unfolding insert_by_seq
insert_by_seq-first row [] low = refl
insert_by_seq-first row (r ∷ rows) (low, _) = ground (arith, low)

order_by_seq-rising :
    (rows : List EventRow) → IsRising (seqs_of_rows rows) → order_by_seq rows ≡ rows
unfolding order_by_seq
order_by_seq-rising [] rising = refl
order_by_seq-rising (row ∷ rows) (low, rising) =
    ap (insert_by_seq row) (order_by_seq-rising rows rising) ∙ insert_by_seq-first row rows low

-- Of the numbers of a session, those above `from`.
numbers-after :
    (session : String) (from : ℕ) (rows : List EventRow)
    → is_negative from ≡ false
    → seqs_of_rows (keep (is_after session from) rows) ≡ keep (ltb from) (numbers session rows)
unfolding is_after
numbers-after session from [] small = refl
numbers-after session from (row ∷ rows) small =
    ground (arith, small, numbers-after session from rows small)

-- From 2^63 on all numbers are above it.
numbers-negative :
    (session : String) (from : ℕ) (rows : List EventRow)
    → is_negative from ≡ true
    → seqs_of_rows (keep (is_after session from) rows) ≡ numbers session rows
unfolding is_after
numbers-negative session from [] large = refl
numbers-negative session from (row ∷ rows) large =
    ground (arith, large, numbers-negative session from rows large)

keep-upto_above : (from m k : ℕ) → from < m → keep (ltb from) (upto m k) ≡ upto m k
keep-upto_above from m zero h = refl
keep-upto_above from m (suc k) h =
    let rest = keep-upto_above from (suc m) k (omega arith) in ground (arith, rest, h)

keep-upto :
    (from m k : ℕ) → m ≤ suc from → keep (ltb from) (upto m k) ≡ upto (suc from) (m + k - suc from)
keep-upto from m zero h = let e : m + 0 - suc from ≡ 0 = omega arith in rw e refl
keep-upto from m (suc k) h = elim (Bool-cases (ltb from m)) [
  | inl above ↦
      let here : m ≡ suc from = ground (arith, above, h) in
      let count : suc k ≡ m + suc k - suc from = omega arith in
      keep-upto_above from m (suc k) (omega arith)
      ∙ ap (λ i. upto i (suc k)) here
      ∙ ap (upto (suc from)) count
  | inr below ↦
      let low : suc m ≤ suc from = ground (arith, below) in
      let count : suc m + k - suc from ≡ m + suc k - suc from = omega arith in
      let dropped : keep (ltb from) (upto m (suc k)) ≡ keep (ltb from) (upto (suc m) k) =
        ground (arith, below) in
      dropped ∙ keep-upto from (suc m) k low ∙ ap (upto (suc from)) count
]

-- The numbers that are replayed after `from`.
abbrev pub missed_numbers : (from head : ℕ) → (all : List ℕ) → List ℕ
missed_numbers from head all = if is_negative from then all else upto (suc from) (head - from)

-- In a log without a hole, the rows of its session beyond `from` are replayed to a client, as they stand in
-- the log, and the head goes with them. If `from` is below 2^63 their numbers are all those from
-- the next one to the head, each once and in order; from 2^63 on they are all numbers of the session,
-- because the cast to i64 makes `from` negative.
pub read_attach_snapshot_lem :
    (db : Db) (session : String) (from : ℕ) (row : SessionRow)
    → IsGapless db
    → find db.sessions session ≡ some row
    → (read_attach_snapshot db session from
        ≡ (map (λ r. r.payload) (keep (is_after session from) db.events), row.head_seq))
      × (map (λ r. r.seq) (keep (is_after session from) db.events)
          ≡ missed_numbers from row.head_seq (numbers session db.events))
unfolding read_attach_snapshot
read_attach_snapshot_lem db session from row gapless found =
    let (first, low, these) : IsLog (some row) (numbers session db.events) =
      subst (λ o. IsLog o (numbers session db.events)) found (gapless session) in
    let missed = keep (is_after session from) db.events in
    let (those, rising) : (seqs_of_rows missed
          ≡ missed_numbers from row.head_seq (numbers session db.events))
        × IsRising (seqs_of_rows missed) =
      elim (Bool-cases (is_negative from)) [
        | inl large ↦
            let all = numbers-negative session from db.events large in
            (
              rw large all,
              subst IsRising (sym (all ∙ these)) (upto-IsRising first (suc row.head_seq - first)),
            )
        | inr small ↦
            let count : first + (suc row.head_seq - first) - suc from ≡ row.head_seq - from =
              omega arith in
            let later =
              numbers-after session from db.events small
              ∙ ap (keep (ltb from)) these
              ∙ keep-upto from first (suc row.head_seq - first) (omega arith)
              ∙ ap (upto (suc from)) count in
            (
              rw small later,
              subst IsRising (sym later) (upto-IsRising (suc from) (row.head_seq - from)),
            )
      ] in
    let sorted = order_by_seq-rising missed rising in
    (
      ap (λ l. (map (λ r. r.payload) l, head_of (find db.sessions session))) sorted
          ∙ ap (λ o. (map (λ r. r.payload) missed, head_of o)) found,
      those,
    )
