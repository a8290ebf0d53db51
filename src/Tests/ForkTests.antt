-- ===== src/Tests/ForkTests.antt =====
-- A fork of a session with two messages that show one picture, and its deletion. The JSON of an event
-- is a text as long as its number.
use kn9t.Prelude.{
  Bool, false, All, keep, ◌⊎◌, ℕ, zero, suc, ◌≡◌, refl, ap, Bool-cases, str_eq, inl, inr, none,
  some, is_some, true, Option, String, List, [], ◌∷◌, arith,
}
use kn9t.Prelude.Table.{find, put, any_value}
use kn9t.Core.Message.{Role, Content, text, Message}
use kn9t.Core.Model.{ModelRef}
use kn9t.Core.Event.{Event, message_appended, seq_of, with_seq, ForkReason}
use kn9t.Store.Database.{
  SessionRow, EventRow, MessageRow, Blob, Db, Connection, begin, insert_event, commit, set_head_seq,
}
use kn9t.Store.Session.{Refusals, append, fail, begin_failed}
use kn9t.Store.Session.Gapless.{IsGapless}
use kn9t.Store.Fork.{
  fork_model, begin_fork, ForkRequest, remap_event_seq, copy_rows, fork_session, fork_session_empty,
}
use kn9t.Store.Project.{extract_sha256_refs, write_rows, project}
use kn9t.Store.Deletion.{
  at_write, at_read, write_delete, read_messages, origin_of_forks, is_fork_of, delete_session,
}
use kn9t.Store.Deletion.Effects.{references, IsDeleted, delete_session_cases}
use kn9t.Store.Deletion.Lost.{fork_then_delete-loses}
use kn9t.Store.Fork.Gapless.{fork_session-IsGapless}
use kn9t.Store.Fork.Succeeds.{IsReadable, fork_session_succeeds}
use kn9t.Store.Fork.Wedged.{fork_session_wedges}

abbrev strokes : ℕ → String
strokes zero = ""
strokes (suc n) = String.◌∷◌ "x" (strokes n)

abbrev count : String → ℕ
count String.[] = 0
count (String.◌∷◌ c s) = suc (count s)

count-strokes : (n : ℕ) → count (strokes n) ≡ n
count-strokes zero = refl
count-strokes (suc n) = ap suc (count-strokes n)

abbrev hello : Message
hello = record { id = "m"; role = Role.user; content = text "hello" ∷ []; silent = false }

abbrev json : Event → String
json (message_appended n msg) = strokes n
json e = ""

abbrev read : String → Option Event
read s = some (message_appended (count s) hello)

abbrev contents_json : List Content → String
contents_json c = "[sha256:ab]"

abbrev model_json : ModelRef → String
model_json m = m.id

abbrev read_model : String → Option ModelRef
read_model s = some (record { provider = "p"; id = s })

abbrev logged : (seq : ℕ) (kind : String) → EventRow
logged seq kind = record { session_id = "s"; seq = seq; ts = 1; kind = kind; payload = strokes seq }

abbrev s_row : SessionRow
s_row = record {
  created_at = 0;
  cwd = "/";
  origin_session = none;
  model_at_fork = some "m";
  head_seq = 3;
}

abbrev shown : ℕ → MessageRow
shown seq = record {
  session_id = "s";
  seq = seq;
  role = "user";
  content = "[sha256:ab]";
  silent = false;
}

-- Counted once for each of the two messages.
abbrev picture : Blob
picture = record { mime = "image/png"; bytes = 1 ∷ []; refcount = 2 }

abbrev store : Db
store = record {
  sessions = ("s", s_row) ∷ [];
  events = logged 1 "MessageAppended" ∷ logged 2 "UsageRecorded" ∷ logged 3 "MessageAppended" ∷ [];
  messages = shown 1 ∷ shown 3 ∷ [];
  usage = [];
  blobs = ("ab", picture) ∷ [];
}

abbrev idle : Connection
idle = record { db = store; saved = none }

store-IsGapless : IsGapless store
unfolding find
store-IsGapless session = elim (Bool-cases (str_eq "s" session)) [
  | inl own ↦ rw own (1, omega arith, refl)
  | inr other ↦ rw other refl
]

abbrev request : ForkRequest
request = record {
  origin = "s";
  new_id = "f";
  origin_seq = 3;
  reason = ForkReason.fork;
  budget_remaining_micros = none;
  cwd = "/";
  ts = 9;
}

reads_back :
    (k n : ℕ) (seqs : ℕ → Option ℕ)
    → read (json (remap_event_seq (message_appended k hello) n seqs))
      ≡ some (remap_event_seq (message_appended k hello) n seqs)
unfolding remap_event_seq kn9t.Core.Event.with_seq
reads_back k n seqs = ap (λ i. some (message_appended i hello)) (count-strokes n)

two_copies : copy_rows store request ≡ logged 1 "MessageAppended" ∷ logged 3 "MessageAppended" ∷ []
unfolding copy_rows
two_copies = refl

two-IsReadable : All (IsReadable json read contents_json) (copy_rows store request)
unfolding copy_rows
two-IsReadable = (
  (message_appended 1 hello, refl, reads_back 1),
  ((message_appended 3 hello, refl, reads_back 3), tt),
)

s_found : find store.sessions "s" ≡ some s_row
unfolding find
s_found = refl

f_free : find store.sessions "f" ≡ none
unfolding find
f_free = refl

succeeds : (fork_session json read contents_json model_json read_model false idle request).0 ≡ none
succeeds =
    let (goes, saved, forked) =
      fork_session_succeeds json read contents_json model_json read_model idle request s_row "m"
        (record { provider = "p"; id = "m" }) refl store-IsGapless s_found refl refl f_free
        two-IsReadable in
    goes

fork_session-IsGapless_example :
    let after = fork_session json read contents_json model_json read_model false idle request in
    IsGapless after.1.db × (after.1.saved ≡ none)
fork_session-IsGapless_example =
    fork_session-IsGapless json read contents_json model_json read_model false idle request succeeds
      store-IsGapless

abbrev lost : ForkRequest
lost = record request { origin = "nobody" }

refused :
    (fork_session json read contents_json model_json read_model false idle lost).0 ≡ some fork_model
unfolding fork_session begin find
refused = refl

fork_session_wedges_example :
    let after = fork_session json read contents_json model_json read_model false idle lost in
    (after.1.saved ≡ some store)
    × ((refused : Bool) (r : ForkRequest)
        → (fork_session json read contents_json model_json read_model refused after.1 r
            ≡ (some begin_fork, after.1))
          × (fork_session_empty json read contents_json model_json read_model refused after.1 r
              ≡ (some begin_fork, after.1)))
    × ((refuses : Refusals) (session : String) (ts : ℕ) (event : Event)
        → is_some (seq_of event) ≡ true
        → append json contents_json refuses after.1 session ts event ≡ fail begin_failed after.1)
    × (fork_session json read contents_json model_json read_model true idle lost
        ≡ (some begin_fork, idle))
fork_session_wedges_example =
    fork_session_wedges json read contents_json model_json read_model idle lost fork_model refl
      refused

abbrev forked : Connection
forked = (fork_session json read contents_json model_json read_model false idle request).1

abbrev own : List MessageRow
own = keep (λ m. str_eq m.session_id "f") forked.db.messages

leaf : any_value (is_fork_of "f") forked.db.sessions ≡ false
unfolding fork_session begin find any_value is_fork_of insert_event write_rows project commit
    set_head_seq put
leaf = refl

named_twice : references "ab" own ≡ 2
unfolding fork_session begin find extract_sha256_refs insert_event write_rows project commit
    set_head_seq put with_seq
named_twice = refl

picture_found : find store.blobs "ab" ≡ some picture
unfolding find
picture_found = refl

-- The origin still shows the picture.
fork_then_delete-loses_example :
    let after = delete_session none forked "f" in
    (after.0 ≡ none)
    × (find after.1.db.blobs "ab" ≡ none)
    × ((s : String)
        → str_eq "f" s ≡ false
        → keep (λ m. str_eq m.session_id s) after.1.db.messages
          ≡ keep (λ m. str_eq m.session_id s) forked.db.messages)
fork_then_delete-loses_example =
    fork_then_delete-loses json read contents_json model_json read_model false idle request "ab"
      picture succeeds leaf picture_found (omega (arith, named_twice)) (omega (arith, named_twice))

delete_session_cases_example :
    let after = delete_session none idle "s" in
    ((any_value (is_fork_of "s") idle.db.sessions ≡ true) × (after ≡ (some origin_of_forks, idle)))
    ⊎ ((any_value (is_fork_of "s") idle.db.sessions ≡ false)
        × (after.0 ≡ none)
        × (after.1.saved ≡ none)
        × IsDeleted idle.db "s" after.1.db
        × (delete_session (some at_write) idle "s" ≡ (some write_delete, idle))
        × (delete_session (some at_read) idle "s"
            ≡ (some read_messages, record { db = idle.db; saved = some idle.db })))
delete_session_cases_example = delete_session_cases idle "s" refl
