-- ===== src/Store/Reproject/Tables.antt =====
-- What a projection does to the rows of one session in each table.
use kn9t.Prelude.{
  ℕ, ◌≡◌, refl, sym, ap, ◌∙◌, String, Bool, true, false, List, [], ◌∷◌, ◌++◌, keep, keep-append,
  keep-keep, keep-keep_absorb, str_eq, eq_iff, arith, append-nil,
}
use kn9t.Store.Database.{
  Db, MessageRow, UsageRow, other_message, other_usage, is_outside, replace_message, replace_usage,
  delete_range,
}
use kn9t.Store.Project.{Row, message_row, usage_row, compacted_row, write_row}

abbrev pub of_session : String → MessageRow → Bool
of_session session row = str_eq row.session_id session

abbrev pub session_messages : String → Db → List MessageRow
session_messages session db = keep (of_session session) db.messages

abbrev pub used_by : String → UsageRow → Bool
used_by session row = str_eq row.session_id session

abbrev pub session_usage : String → Db → List UsageRow
session_usage session db = keep (used_by session) db.usage

-- Two databases hold the same projected rows of a session.
pub record IsSameView (session : String) (a b : Db) : Type 0 where
  pub messages_same : session_messages session a ≡ session_messages session b
  pub usage_same : session_usage session a ≡ session_usage session b

foreign_owner :
    (owner other session : String)
    → str_eq owner session ≡ true
    → str_eq other session ≡ false
    → str_eq owner other ≡ false
foreign_owner owner other session own foreign =
    ground (arith, eq_iff owner other, eq_iff owner session, eq_iff other session)

replace_message-own :
    (session : String) (row : MessageRow) (rows : List MessageRow)
    → str_eq row.session_id session ≡ true
    → keep (of_session session) (replace_message row rows)
      ≡ replace_message row (keep (of_session session) rows)
unfolding replace_message
replace_message-own session row rows own =
    let p = of_session session in
    let q = other_message row.session_id row.seq in
    let last : keep p (row ∷ []) ≡ row ∷ [] = ground (arith, own) in
    keep-append p (keep q rows) (row ∷ [])
    ∙ ap (λ l. l ++ keep p (row ∷ [])) (keep-keep p q rows)
    ∙ ap (λ l. keep q (keep p rows) ++ l) last

replace_message-foreign :
    (session : String) (row : MessageRow) (rows : List MessageRow)
    → str_eq row.session_id session ≡ false
    → keep (of_session session) (replace_message row rows) ≡ keep (of_session session) rows
unfolding replace_message
replace_message-foreign session row rows foreign =
    let p = of_session session in
    let q = other_message row.session_id row.seq in
    let last : keep p (row ∷ []) ≡ [] = ground (arith, foreign) in
    keep-append p (keep q rows) (row ∷ [])
    ∙ ap (λ l. keep p (keep q rows) ++ l) last
    ∙ append-nil (keep p (keep q rows))
    ∙ keep-keep_absorb p q rows (λ r h.
      let apart = foreign_owner r.session_id row.session_id session h foreign in
      ground (arith, apart))

replace_usage-own :
    (session : String) (row : UsageRow) (rows : List UsageRow)
    → str_eq row.session_id session ≡ true
    → keep (used_by session) (replace_usage row rows)
      ≡ replace_usage row (keep (used_by session) rows)
unfolding replace_usage
replace_usage-own session row rows own =
    let p = used_by session in
    let q = other_usage row.session_id row.seq in
    let last : keep p (row ∷ []) ≡ row ∷ [] = ground (arith, own) in
    keep-append p (keep q rows) (row ∷ [])
    ∙ ap (λ l. l ++ keep p (row ∷ [])) (keep-keep p q rows)
    ∙ ap (λ l. keep q (keep p rows) ++ l) last

replace_usage-foreign :
    (session : String) (row : UsageRow) (rows : List UsageRow)
    → str_eq row.session_id session ≡ false
    → keep (used_by session) (replace_usage row rows) ≡ keep (used_by session) rows
unfolding replace_usage
replace_usage-foreign session row rows foreign =
    let p = used_by session in
    let q = other_usage row.session_id row.seq in
    let last : keep p (row ∷ []) ≡ [] = ground (arith, foreign) in
    keep-append p (keep q rows) (row ∷ [])
    ∙ ap (λ l. keep p (keep q rows) ++ l) last
    ∙ append-nil (keep p (keep q rows))
    ∙ keep-keep_absorb p q rows (λ r h.
      let apart = foreign_owner r.session_id row.session_id session h foreign in
      ground (arith, apart))

delete_range-foreign :
    (session owner : String) (start end : ℕ) (rows : List MessageRow)
    → str_eq owner session ≡ false
    → keep (of_session session) (delete_range owner start end rows) ≡ keep (of_session session) rows
unfolding delete_range
delete_range-foreign session owner start end rows foreign =
    keep-keep_absorb (of_session session) (is_outside owner start end) rows (λ r h.
      let apart = foreign_owner r.session_id owner session h foreign in ground (arith, apart))

delete_range-own :
    (session owner : String) (start end : ℕ) (rows : List MessageRow)
    → keep (of_session session) (delete_range owner start end rows)
      ≡ delete_range owner start end (keep (of_session session) rows)
unfolding delete_range
delete_range-own session owner start end rows =
    keep-keep (of_session session) (is_outside owner start end) rows

abbrev pub owner_of : Row → String
owner_of (message_row row) = row.session_id
owner_of (usage_row row) = row.session_id
owner_of (compacted_row session seq start end role content) = session

-- A row of another session changes nothing of this one.
pub write_row-foreign :
    (session : String) (db : Db) (row : Row)
    → str_eq (owner_of row) session ≡ false
    → IsSameView session (write_row db row) db
unfolding write_row
write_row-foreign session db (message_row row) foreign = record {
  messages_same = replace_message-foreign session row db.messages foreign;
  usage_same = refl;
}
write_row-foreign session db (usage_row row) foreign = record {
  messages_same = refl;
  usage_same = replace_usage-foreign session row db.usage foreign;
}
write_row-foreign session db (compacted_row owner seq start end role content) foreign = record {
  messages_same =
      replace_message-foreign session _ (delete_range owner start end db.messages) foreign
      ∙ delete_range-foreign session owner start end db.messages foreign;
  usage_same = refl;
}

-- A row of the session does the same to the same view.
pub write_row-own :
    (session : String) (a b : Db) (row : Row)
    → str_eq (owner_of row) session ≡ true
    → IsSameView session a b
    → IsSameView session (write_row a row) (write_row b row)
unfolding write_row
write_row-own session a b (message_row row) own same = record {
  messages_same =
      replace_message-own session row a.messages own
      ∙ ap (replace_message row) same.messages_same
      ∙ sym (replace_message-own session row b.messages own);
  usage_same = same.usage_same;
}
write_row-own session a b (usage_row row) own same = record {
  messages_same = same.messages_same;
  usage_same =
      replace_usage-own session row a.usage own
      ∙ ap (replace_usage row) same.usage_same
      ∙ sym (replace_usage-own session row b.usage own);
}
write_row-own session a b (compacted_row owner seq start end role content) own same =
    let cut = delete_range owner start end in
    record {
      messages_same =
          replace_message-own session _ (cut a.messages) own
          ∙ ap (replace_message _) (
              delete_range-own session owner start end a.messages
              ∙ ap cut same.messages_same
              ∙ sym (delete_range-own session owner start end b.messages))
          ∙ sym (replace_message-own session _ (cut b.messages) own);
      usage_same = same.usage_same;
    }
