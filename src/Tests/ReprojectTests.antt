-- ===== src/Tests/ReprojectTests.antt =====
-- A log of two messages and its projection. The JSON of an event is a text as long as its number.
use kn9t.Prelude.{
  ℕ, zero, suc, ◌≡◌, refl, ap, Bool-cases, str_eq, inl, inr, none, some, Option, String, List, [],
  ◌∷◌, keep, true, false,
}
use kn9t.Core.Message.{Role, Content, text, Message}
use kn9t.Core.Event.{Event, message_appended, with_seq}
use kn9t.Store.Database.{SessionRow, EventRow, MessageRow, Db, Connection}
use kn9t.Store.Project.{project}
use kn9t.Store.Session.{append}
use kn9t.Store.Session.Gapless.{IsGapless}
use kn9t.Store.Session.Numbering.{nothing_refused}
use kn9t.Store.Reproject.{reproject, replay_events}
use kn9t.Store.Reproject.Tables.{IsSameView}
use kn9t.Store.Reproject.Faithful.{IsProjected, reproject-same}
use kn9t.Store.Reproject.Appends.{IsSavedProjected, append-IsProjected}

abbrev strokes : ℕ → String
strokes zero = ""
strokes (suc n) = String.◌∷◌ "x" (strokes n)

abbrev count : String → ℕ
count String.[] = 0
count (String.◌∷◌ c s) = suc (count s)

count-strokes : (n : ℕ) → count (strokes n) ≡ n
count-strokes zero = refl
count-strokes (suc n) = ap suc (count-strokes n)

abbrev hello : Message
hello = record { id = "m"; role = Role.user; content = text "hello" ∷ []; silent = false }

abbrev json : Event → String
json (message_appended n msg) = strokes n
json e = ""

abbrev read : String → Option Event
read s = some (message_appended (count s) hello)

abbrev contents_json : List Content → String
contents_json c = "[hello]"

abbrev logged : ℕ → EventRow
logged seq = record {
  session_id = "s";
  seq = seq;
  ts = 1;
  kind = "MessageAppended";
  payload = strokes seq;
}

abbrev shown : ℕ → MessageRow
shown seq = record {
  session_id = "s";
  seq = seq;
  role = "user";
  content = "[hello]";
  silent = false;
}

abbrev s_row : SessionRow
s_row = record {
  created_at = 0;
  cwd = "/";
  origin_session = none;
  model_at_fork = none;
  head_seq = 2;
}

abbrev store : Db
store = record {
  sessions = ("s", s_row) ∷ [];
  events = logged 1 ∷ logged 2 ∷ [];
  messages = shown 1 ∷ shown 2 ∷ [];
  usage = [];
  blobs = [];
}

abbrev idle : Connection
idle = record { db = store; saved = none }

store-IsProjected : IsProjected contents_json read store
unfolding replay_events project kn9t.Store.Project.write_rows
store-IsProjected session = record { messages_same = refl; usage_same = refl }

reads_back :
    (n : ℕ)
    → read (json (with_seq (message_appended 0 hello) n))
      ≡ some (with_seq (message_appended 0 hello) n)
unfolding with_seq
reads_back n = ap (λ k. some (message_appended k hello)) (count-strokes n)

append-IsProjected_example :
    let after = append json contents_json nothing_refused idle "s" 5 (message_appended 0 hello) in
    IsProjected contents_json read after.conn.db
    × IsSavedProjected json contents_json read after.conn.saved
append-IsProjected_example =
    append-IsProjected json contents_json read nothing_refused idle "s" 5 (message_appended 0 hello)
      reads_back store-IsProjected tt

store-IsGapless : IsGapless store
unfolding kn9t.Prelude.Table.find
store-IsGapless session = elim (Bool-cases (str_eq "s" session)) [
  | inl own ↦ rw own (1, omega kn9t.Prelude.arith, refl)
  | inr other ↦ rw other refl
]

reproject-same_example : IsSameView "s" (reproject contents_json read (λ rows. rows) store) store
reproject-same_example =
    reproject-same contents_json read (λ rows. rows) store "s" (λ rows rising. refl) store-IsGapless
      store-IsProjected
