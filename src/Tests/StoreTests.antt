-- ===== src/Tests/StoreTests.antt =====
-- A store with one session and two events in its log, to which events are appended.
use kn9t.Prelude.{
  keep, map, ℕ, ◌≡◌, ◌≢◌, refl, true, none, some, String, List, [], ◌∷◌, ◌++◌, inl, inr, arith,
  str_eq, Bool-cases,
}
use kn9t.Prelude.Table.{find, put}
use kn9t.Core.Message.{Content}
use kn9t.Core.Event.{Event, tools_toggled, seq_of, with_seq}
use kn9t.Store.Database.{SessionRow, EventRow, Db, Connection}
use kn9t.Store.Session.{Refusals, no_session, begin_failed, write_failed, commit_failed, append}
use kn9t.Store.Snapshot.{is_after, read_attach_snapshot}
use kn9t.Store.Snapshot.Complete.{missed_numbers, read_attach_snapshot_lem}
use kn9t.Store.Session.Atomic.{append-atomic, missing_session_wedges}
use kn9t.Store.Session.Gapless.{numbers, IsGapless, IsSound}
use kn9t.Store.Session.Numbering.{nothing_refused, row_of, append-IsSound, append_lem}

abbrev json : Event → String
json e = "{}"

abbrev contents_json : List Content → String
contents_json c = "[]"

abbrev logged : ℕ → EventRow
logged seq = record { session_id = "s"; seq = seq; ts = 1; kind = "ToolsToggled"; payload = "{}" }

abbrev s_row : SessionRow
s_row = record {
  created_at = 0;
  cwd = "/";
  origin_session = none;
  model_at_fork = none;
  head_seq = 2;
}

abbrev store : Db
store = record {
  sessions = ("s", s_row) ∷ [];
  events = logged 1 ∷ logged 2 ∷ [];
  messages = [];
  usage = [];
  blobs = [];
}

abbrev idle : Connection
idle = record { db = store; saved = none }

-- A disk that is full when the projection is written.
abbrev full : Refusals
full = record nothing_refused { at_write = true }

store-IsGapless : IsGapless store
unfolding find
store-IsGapless session = elim (Bool-cases (str_eq "s" session)) [
  | inl own ↦ rw own (1, omega arith, refl)
  | inr other ↦ rw other refl
]

idle-IsSound : IsSound idle
idle-IsSound = (store-IsGapless, tt)

s_found : find store.sessions "s" ≡ some s_row
unfolding find
s_found = refl

r_missing : find store.sessions "r" ≡ none
unfolding find
r_missing = refl

append_lem_example :
    let after = append json contents_json nothing_refused idle "s" 5 (tools_toggled 0 []) in
    (after.result ≡ inr 3)
    × (after.echo ≡ some ("s", with_seq (tools_toggled 0 []) 3))
    × (after.conn.saved ≡ none)
    × (after.conn.db.events
        ≡ idle.db.events ++ row_of json "s" 5 3 (with_seq (tools_toggled 0 []) 3) ∷ [])
    × (after.conn.db.sessions ≡ put idle.db.sessions "s" (record s_row { head_seq = 3 }))
unfolding seq_of
append_lem_example =
    append_lem json contents_json idle "s" 5 (tools_toggled 0 []) s_row store-IsGapless refl s_found
      refl

append-IsSound_example :
    IsSound (append json contents_json full idle "s" 5 (tools_toggled 0 [])).conn
append-IsSound_example =
    append-IsSound json contents_json full idle "s" 5 (tools_toggled 0 []) idle-IsSound

full_fails :
    (append json contents_json full idle "s" 5 (tools_toggled 0 [])).result ≡ inl write_failed
unfolding append seq_of find kn9t.Store.Database.begin kn9t.Store.Database.insert_event
full_fails = refl

write_is_not_missing : write_failed ≢ no_session
write_is_not_missing = ground arith

write_is_not_commit : write_failed ≢ commit_failed
write_is_not_commit = ground arith

append-atomic_example :
    ((append json contents_json full idle "s" 5 (tools_toggled 0 [])).conn ≡ idle)
    × ((append json contents_json full idle "s" 5 (tools_toggled 0 [])).echo ≡ none)
append-atomic_example =
    append-atomic json contents_json full idle "s" 5 (tools_toggled 0 []) write_failed refl
      full_fails write_is_not_missing write_is_not_commit

missing_session_wedges_example :
    ((append json contents_json nothing_refused idle "r" 5 (tools_toggled 0 [])).result
      ≡ inl no_session)
    × (append json contents_json nothing_refused
          (append json contents_json nothing_refused idle "r" 5 (tools_toggled 0 [])).conn
          "s"
          6
          (tools_toggled 0 [])
        ≡ record {
          result = inl begin_failed;
          conn = (append json contents_json nothing_refused idle "r" 5 (tools_toggled 0 [])).conn;
          echo = none;
        })
unfolding seq_of
missing_session_wedges_example =
    missing_session_wedges json contents_json nothing_refused nothing_refused idle "r" "s" 5 6
      (tools_toggled 0 []) (tools_toggled 0 []) refl r_missing refl refl refl

read_attach_snapshot_lem_example :
    (read_attach_snapshot store "s" 1
      ≡ (map (λ r. r.payload) (keep (is_after "s" 1) store.events), 2))
    × (map (λ r. r.seq) (keep (is_after "s" 1) store.events)
        ≡ missed_numbers 1 2 (numbers "s" store.events))
read_attach_snapshot_lem_example =
    read_attach_snapshot_lem store "s" 1 s_row store-IsGapless s_found
