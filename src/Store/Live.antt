-- ===== src/Store/Live.antt =====
-- crates/kn9t-store/src/live.rs: what a running turn leaves behind for the case that the process
-- dies, and the sink of crates/kn9t-server/src/bus.rs that writes it. A text is Rust's `str`: `len` counts
-- its bytes. The tables are taken to accept every statement, but for the
-- query of a call's progress, whose text is not SQL; times and the JSON text of a partial message
-- are left out, as the statements only store them.
pub mod Tail
pub mod Salvage
use Prim.Native.Char.{len_utf8}
use Prim.Native.String.{len, ◌++◌ as append}
use kn9t.Prelude.{
  ℕ, zero, suc, ◌+◌, ◌-◌, ◌*◌, String, Bool, true, false, not, ◌&&◌, ◌||◌, Option, none, some, List,
  [], ◌∷◌, ◌++◌, keep, ltb, leb, str_eq, if◌then◌else◌, ◌⊎◌, inl, inr,
}
use kn9t.Prelude.Maybe.{◌>>=◌}
use kn9t.Prelude.Table.{Table, find, put, remove}
use kn9t.Core.Message.{CallId, MsgId, SessionId}
use kn9t.Core.Event.{LiveEvent}

pub record LiveMessage : Type 0 where
  pub msg_id : MsgId
  pub role : String
  pub partial_content : String

pub record LiveToolCall : Type 0 where
  pub session_id : String
  pub call_id : String
  pub tool : String
  pub progress : String
  pub truncated : Bool

-- `live_messages` is keyed by the session, `live_tool_calls` by the session and the call.
pub record Scratch : Type 0 where
  pub live_messages : Table LiveMessage
  pub live_tool_calls : List LiveToolCall

unfoldable pub upsert_live_message :
    Scratch → SessionId → MsgId → (role partial_content : String) → Scratch
upsert_live_message s session msg_id role partial_content = record s {
  live_messages =
      put s.live_messages session
        (record { msg_id = msg_id; role = role; partial_content = partial_content });
}

unfoldable pub get_live_message : Scratch → SessionId → Option String
get_live_message s session = do row ← find s.live_messages session; some row.partial_content

unfoldable pub delete_live_message : Scratch → SessionId → Scratch
delete_live_message s session = record s { live_messages = remove s.live_messages session }

abbrev pub max_progress_bytes : ℕ
max_progress_bytes = 8 * 1024

unfoldable pub is_row_of : SessionId → CallId → LiveToolCall → Bool
is_row_of session call_id row = str_eq row.session_id session && str_eq row.call_id call_id

-- `SELECT ... WHERE session_id=?1 AND call_id=?2`, of which a primary key leaves one row.
unfoldable pub find_call : List LiveToolCall → SessionId → CallId → Option LiveToolCall
unfolding is_row_of
find_call [] session call_id = none
find_call (row ∷ rows) session call_id =
    let rest = find_call rows session call_id in
    if is_row_of session call_id row then some row else rest

unfoldable pub other_calls : SessionId → CallId → List LiveToolCall → List LiveToolCall
unfolding is_row_of
other_calls session call_id = keep (λ row. not (is_row_of session call_id row))

-- `INSERT OR REPLACE`
unfoldable pub begin_live_tool_call : Scratch → SessionId → CallId → (tool : String) → Scratch
unfolding other_calls
begin_live_tool_call s session call_id tool = record s {
  live_tool_calls =
      record {
        session_id = session;
        call_id = call_id;
        tool = tool;
        progress = "";
        truncated = false;
      }
      ∷ other_calls session call_id s.live_tool_calls;
}

-- `str::is_char_boundary` and `&s[i..]`, which panics off a boundary.
unfoldable pub is_char_boundary : String → ℕ → Bool
is_char_boundary s zero = true
is_char_boundary String.[] (suc i) = false
is_char_boundary (String.◌∷◌ c s) (suc i) =
    leb (len_utf8 c) (suc i) && is_char_boundary s (suc i - len_utf8 c)

unfoldable pub slice_from : String → ℕ → Option String
slice_from s zero = some s
slice_from String.[] (suc i) = none
slice_from (String.◌∷◌ c s) (suc i) =
    let rest = slice_from s (suc i - len_utf8 c) in if leb (len_utf8 c) (suc i) then rest else none

-- The loop that moves the cut up to a boundary. At most three bytes continue a character, which is
-- its fuel.
unfoldable pub next_boundary : ℕ → String → ℕ → ℕ
unfolding is_char_boundary
next_boundary zero s cut = cut
next_boundary (suc fuel) s cut =
    let further = next_boundary fuel s (cut + 1) in
    if ltb cut (len s) && not (is_char_boundary s cut) then further else cut

-- What of `progress` and `truncated` is stored; `none` is a panic.
unfoldable pub capped : (progress : String) → (truncated : Bool) → Option (String × Bool)
unfolding next_boundary slice_from
capped progress truncated =
    let cut = next_boundary 3 progress (len progress - max_progress_bytes) in
    let tail = slice_from progress cut >>= λ rest. some (rest, true) in
    if ltb max_progress_bytes (len progress) then tail else some (progress, truncated)

-- `UPDATE live_tool_calls SET progress=?1, truncated=?2 WHERE ...`
unfoldable pub update_call :
    SessionId
    → CallId
    → (progress : String) (truncated : Bool) → List LiveToolCall
    → List LiveToolCall
unfolding is_row_of
update_call session call_id progress truncated [] = []
update_call session call_id progress truncated (row ∷ rows) =
    let row' = record row { progress = progress; truncated = truncated } in
    (if is_row_of session call_id row then row' else row)
    ∷ update_call session call_id progress truncated rows

unfoldable pub append_live_tool_progress :
    Scratch → SessionId → CallId → (note : String) → Option Scratch
unfolding find_call capped update_call
append_live_tool_progress s session call_id note =
    elim (find_call s.live_tool_calls session call_id) [
      | none ↦ some s
      | some row ↦ do
        (progress, truncated) ← capped (append row.progress note) row.truncated
        some (record s {
          live_tool_calls = update_call session call_id progress truncated s.live_tool_calls;
        })
    ]

unfoldable pub end_live_tool_call : Scratch → SessionId → CallId → Scratch
unfolding other_calls
end_live_tool_call s session call_id = record s {
  live_tool_calls = other_calls session call_id s.live_tool_calls;
}

pub data QueryErr : Type 0 where
  syntax_error : QueryErr

-- The line break in the text of the query drops the space before `WHERE`: it reads `FROM
-- live_tool_callsWHERE session_id=?1`, which is no SQL, and SQLite refuses it whatever the table holds.
unfoldable pub get_live_tool_progress :
    Scratch → SessionId → CallId → QueryErr ⊎ Option (String × String × Bool)
get_live_tool_progress s session call_id = inl syntax_error

-- `.ok().flatten()`
unfoldable pub ok_flatten : {A : Type 0} → QueryErr ⊎ Option A → Option A
ok_flatten (inl e) = none
ok_flatten (inr found) = found

-- `SessionSink::salvage` of a sink with a store.
unfoldable pub salvage : Scratch → SessionId → LiveEvent → Option Scratch
unfolding begin_live_tool_call append_live_tool_progress
salvage s session (LiveEvent.tool_started call_id name) =
    some (begin_live_tool_call s session call_id name)
salvage s session (LiveEvent.tool_progress call_id note) =
    append_live_tool_progress s session call_id note
salvage s session e = some s
