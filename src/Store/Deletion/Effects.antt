-- ===== src/Store/Deletion/Effects.antt =====
-- What a deletion takes and what it leaves (crates/kn9t-store/src/session_delete.rs).
use kn9t.Prelude.{
  ℕ, zero, suc, ◌+◌, ◌-◌, ◌≤◌, ◌≡◌, refl, sym, ap, ◌∙◌, subst, String, true, false, not, Option,
  none, some, Option-cases, Bool-cases, ◌⊎◌, inl, inr, List, [], ◌∷◌, keep, leb, str_eq, eq_iff,
  if◌then◌else◌, arith,
}
use kn9t.Prelude.Table.{Table, find, any_value, find-put, find-remove}
use kn9t.Core.Message.{SessionId}
use kn9t.Store.Database.{
  EventRow, MessageRow, UsageRow, Blob, Db, Connection, begin, commit, rollback,
}
use kn9t.Store.Project.{extract_sha256_refs}
use kn9t.Store.Session.Gapless.{is_of}
use kn9t.Store.Deletion.{
  DeleteErr, origin_of_forks, decr_refcount, decr_all, decr_blob_refs, decr_messages, is_fork_of,
  deleted, delete_session, at_write, at_read, write_delete, read_messages, begin_delete_rows,
  delete_rows,
}

-- The rows of one session, after those of another are deleted.
keep-others :
    {A : Type 0} (id_of : A → String) (gone session : String) (rows : List A)
    → str_eq gone session ≡ false
    → keep (λ r. str_eq (id_of r) session) (keep (λ r. not (str_eq (id_of r) gone)) rows)
      ≡ keep (λ r. str_eq (id_of r) session) rows
keep-others id_of gone session [] apart = refl
keep-others id_of gone session (r ∷ rows) apart = ground (
  arith,
  keep-others id_of gone session rows apart,
  apart,
  eq_iff (id_of r) gone,
  eq_iff (id_of r) session,
  eq_iff gone session,
)

keep-gone :
    {A : Type 0} (id_of : A → String) (gone : String) (rows : List A)
    → keep (λ r. str_eq (id_of r) gone) (keep (λ r. not (str_eq (id_of r) gone)) rows) ≡ []
keep-gone id_of gone [] = refl
keep-gone id_of gone (r ∷ rows) = ground (arith, keep-gone id_of gone rows)

-- How often a list of references names a blob.
abbrev pub occurrences : String → List String → ℕ
occurrences hash [] = 0
occurrences hash (h ∷ hs) =
    let rest = occurrences hash hs in if str_eq h hash then suc rest else rest

abbrev pub spend_one : Option Blob → Option Blob
spend_one none = none
spend_one (some b) =
    if leb b.refcount 1 then none else some (record b { refcount = b.refcount - 1 })

abbrev pub spend : ℕ → Option Blob → Option Blob
spend zero o = o
spend (suc k) o = spend k (spend_one o)

find-decr_refcount :
    (blobs : Table Blob) (hash h : String)
    → find (decr_refcount blobs hash) h
      ≡ (if str_eq hash h then spend_one (find blobs h) else find blobs h)
unfolding decr_refcount
find-decr_refcount blobs hash h =
    let at = λ (same : str_eq hash h ≡ true). ap (find blobs) ((eq_iff hash h).0 same) in
    elim (Option-cases (find blobs hash)) [
      | inl e ↦ elim (Bool-cases (str_eq hash h)) [
        | inl same ↦ ground (arith, e, same, sym (at same) ∙ e)
        | inr apart ↦ ground (arith, e, apart)
      ]
      | inr (b, e) ↦
          let removed = find-remove blobs hash h in
          let kept = find-put blobs hash h (record b { refcount = b.refcount - 1 }) in
          elim (Bool-cases (str_eq hash h)) [
            | inl same ↦ ground (arith, e, same, sym (at same) ∙ e, removed, kept)
            | inr apart ↦ ground (arith, e, apart, removed, kept)
          ]
    ]

find-decr_all :
    (blobs : Table Blob) (hashes : List String) (h : String)
    → find (decr_all blobs hashes) h ≡ spend (occurrences h hashes) (find blobs h)
unfolding decr_all
find-decr_all blobs [] h = refl
find-decr_all blobs (hash ∷ hashes) h =
    let one = find-decr_refcount blobs hash h in
    let rest = find-decr_all (decr_refcount blobs hash) hashes h in
    elim (Bool-cases (str_eq hash h)) [
      | inl same ↦ rest ∙ ap (spend (occurrences h hashes)) one ∙ ground (arith, same)
      | inr apart ↦ rest ∙ ap (spend (occurrences h hashes)) one ∙ ground (arith, apart)
    ]

spend-add : (a b : ℕ) (o : Option Blob) → spend (a + b) o ≡ spend b (spend a o)
spend-add zero b o = let e : 0 + b ≡ b = omega arith in ap (λ k. spend k o) e
spend-add (suc a) b o =
    let e : suc a + b ≡ suc (a + b) = omega arith in
    ap (λ k. spend k o) e ∙ spend-add a b (spend_one o)

-- How often the contents of messages name a blob.
abbrev pub references : String → List MessageRow → ℕ
references hash [] = 0
references hash (m ∷ ms) = occurrences hash (extract_sha256_refs m.content) + references hash ms

find-decr_messages :
    (blobs : Table Blob) (ms : List MessageRow) (h : String)
    → find (decr_messages blobs ms) h ≡ spend (references h ms) (find blobs h)
unfolding decr_messages decr_blob_refs
find-decr_messages blobs [] h = refl
find-decr_messages blobs (m ∷ ms) h =
    let refs = extract_sha256_refs m.content in
    find-decr_messages (decr_all blobs refs) ms h
    ∙ ap (spend (references h ms)) (find-decr_all blobs refs h)
    ∙ sym (spend-add (occurrences h refs) (references h ms) (find blobs h))

spend-none : (k : ℕ) → spend k none ≡ none
spend-none zero = refl
spend-none (suc k) = spend-none k

pub spend-all : (k : ℕ) (b : Blob) → 1 ≤ k → b.refcount ≤ k → spend k (some b) ≡ none
spend-all zero b pos_k h = absurd (omega arith)
spend-all (suc k) b pos_k h = elim (Bool-cases (leb b.refcount 1)) [
  | inl last ↦ ap (spend k) (ground (arith, last)) ∙ spend-none k
  | inr more ↦
      let b' : Blob = record b { refcount = b.refcount - 1 } in
      let step : spend_one (some b) ≡ some b' = ground (arith, more) in
      ap (spend k) step ∙ spend-all k b' (ground (arith, more, h)) (ground (arith, more, h))
]

rows_of_deleted :
    {A : Type 0} (id_of : A → String) (gone session : String) (rows : List A)
    → keep (λ r. str_eq (id_of r) session) (keep (λ r. not (str_eq (id_of r) gone)) rows)
      ≡ (if str_eq gone session then [] else keep (λ r. str_eq (id_of r) session) rows)
rows_of_deleted id_of gone session rows = elim (Bool-cases (str_eq gone session)) [
  | inl same ↦
      let id : gone ≡ session = (eq_iff gone session).0 same in
      ap (λ s. keep (λ r. str_eq (id_of r) s) (keep (λ r. not (str_eq (id_of r) gone)) rows))
        (sym id)
      ∙ keep-gone id_of gone rows
      ∙ ground (arith, same)
  | inr apart ↦ keep-others id_of gone session rows apart ∙ ground (arith, apart)
]

-- Of each session what is left, and of each blob.
pub record IsDeleted (before : Db) (gone : SessionId) (after : Db) : Type 0 where
  pub sessions :
      (s : SessionId)
      → find after.sessions s ≡ (if str_eq gone s then none else find before.sessions s)
  pub events :
      (s : SessionId)
      → keep (is_of s) after.events ≡ (if str_eq gone s then [] else keep (is_of s) before.events)
  pub messages :
      (s : SessionId)
      → keep (λ m. str_eq m.session_id s) after.messages
        ≡ (if str_eq gone s then [] else keep (λ m. str_eq m.session_id s) before.messages)
  pub usage :
      (s : SessionId)
      → keep (λ u. str_eq u.session_id s) after.usage
        ≡ (if str_eq gone s then [] else keep (λ u. str_eq u.session_id s) before.usage)
  pub blobs :
      (hash : String)
      → find after.blobs hash
        ≡ spend
            (references hash (keep (λ m. str_eq m.session_id gone) before.messages))
            (find before.blobs hash)

deleted-IsDeleted : (db : Db) (gone : SessionId) → IsDeleted db gone (deleted db gone)
unfolding deleted
deleted-IsDeleted db gone = record {
  sessions = λ s. find-remove db.sessions gone s;
  events = λ s. rows_of_deleted (λ (e : EventRow). e.session_id) gone s db.events;
  messages = λ s. rows_of_deleted (λ (m : MessageRow). m.session_id) gone s db.messages;
  usage = λ s. rows_of_deleted (λ (u : UsageRow). u.session_id) gone s db.usage;
  blobs =
      λ hash. find-decr_messages db.blobs (keep (λ m. str_eq m.session_id gone) db.messages) hash;
}

-- If SQLite refuses nothing, then outside a transaction a session of which there is a fork is not deleted and
-- nothing changes; any other session is deleted, and the transaction closed: its row, events, messages
-- and usage are gone, those of every other session are as they were, and each blob has lost one
-- reference for each time that a message of the session names it, and is gone when the last one was
-- lost. If a statement that writes is refused, the deletion changes nothing; but if the messages cannot be
-- read, it leaves its transaction open.
pub delete_session_cases :
    (c : Connection) (gone : SessionId)
    → c.saved ≡ none
    → let after = delete_session none c gone in
      ((any_value (is_fork_of gone) c.db.sessions ≡ true) × (after ≡ (some origin_of_forks, c)))
      ⊎ ((any_value (is_fork_of gone) c.db.sessions ≡ false)
          × (after.0 ≡ none)
          × (after.1.saved ≡ none)
          × IsDeleted c.db gone after.1.db
          × (delete_session (some at_write) c gone ≡ (some write_delete, c))
          × (delete_session (some at_read) c gone
              ≡ (some read_messages, record { db = c.db; saved = some c.db })))
unfolding delete_session begin commit begin_delete_rows delete_rows rollback
delete_session_cases c gone outside =
    let after = delete_session none c gone in
    let idle : ◌≡◌ {A = Connection} (record { db = c.db; saved = none }) c =
      ap (λ s. record { db = c.db; saved = s }) (sym outside) in
    elim (Bool-cases (any_value (is_fork_of gone) c.db.sessions)) [
      | inl forks ↦ inl (forks, ground (arith, forks))
      | inr none_left ↦
          let all : after ≡ (none, record { db = deleted c.db gone; saved = none }) =
            ground (arith, none_left, outside) in
          inr (
            none_left,
            ap (λ (x : Option DeleteErr × Connection). x.0) all,
            ap (λ (x : Option DeleteErr × Connection). x.1.saved) all,
            subst (IsDeleted c.db gone)
                (sym (ap (λ (x : Option DeleteErr × Connection). x.1.db) all))
                (deleted-IsDeleted c.db gone),
            ground (arith, none_left, outside, idle),
            ground (arith, none_left, outside),
          )
    ]
