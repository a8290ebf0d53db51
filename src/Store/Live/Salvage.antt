-- ===== src/Store/Live/Salvage.antt =====
-- What the sink of a running turn has salvaged of each call (crates/kn9t-store/src/live.rs, bus.rs of the
-- server) after any live events.
use Prim.Native.String.{◌++◌ as append}
use kn9t.Prelude.{
  ◌≡◌, refl, sym, ◌∙◌, String, Bool, false, Option, some, Option-cases, List, [], ◌∷◌, str_eq,
  eq_iff, eq_refl, Bool-cases, inl, inr, if◌then◌else◌, arith,
}
use kn9t.Prelude.Maybe.{◌>>=◌}
use mathlib.Core.Option
use kn9t.Core.Message.{CallId, SessionId}
use kn9t.Core.Event.{LiveEvent}
use kn9t.Store.Live.{
  Scratch, LiveToolCall, find_call, other_calls, update_call, begin_live_tool_call,
  append_live_tool_progress, get_live_tool_progress, syntax_error, salvage, capped,
}
use kn9t.Store.Live.Tail.{IsTailOf, capped-IsTailOf, capped_total}

-- The sink sees the events one by one.
abbrev pub salvage_all : Scratch → SessionId → List LiveEvent → Option Scratch
salvage_all s session [] = some s
salvage_all s session (e ∷ es) = salvage s session e >>= λ s'. salvage_all s' session es

-- All that a call has written since it last started, `before` being what it had written.
abbrev pub output_of : CallId → (before : String) → List LiveEvent → String
output_of call before [] = before
output_of call before (LiveEvent.tool_started id name ∷ es) =
    output_of call (if str_eq id call then "" else before) es
output_of call before (LiveEvent.tool_progress id note ∷ es) =
    output_of call (if str_eq id call then append before note else before) es
output_of call before (e ∷ es) = output_of call before es

abbrev rewritten : (progress : String) (truncated : Bool) → LiveToolCall → LiveToolCall
rewritten progress truncated row = record row { progress = progress; truncated = truncated }

find_call-other :
    (rows : List LiveToolCall) (session : SessionId) (id call : CallId)
    → str_eq id call ≡ false
    → find_call (other_calls session id rows) session call ≡ find_call rows session call
unfolding find_call other_calls
find_call-other [] session id call h = refl
find_call-other (row ∷ rows) session id call h = ground (
  arith,
  find_call-other rows session id call h,
  eq_iff row.call_id id,
  eq_iff row.call_id call,
  eq_iff id call,
)

find_call-update :
    (rows : List LiveToolCall) (session : SessionId) (id call : CallId) (p : String) (t : Bool)
    → find_call (update_call session id p t rows) session call ≡ (
        if str_eq id call
        then Option.map (rewritten p t) (find_call rows session call)
        else find_call rows session call)
unfolding find_call update_call
find_call-update [] session id call p t = ground arith
find_call-update (row ∷ rows) session id call p t = ground (
  arith,
  find_call-update rows session id call p t,
  eq_iff row.call_id id,
  eq_iff row.call_id call,
  eq_iff id call,
)

abbrev HasTail : Scratch → SessionId → CallId → (all : String) → Type 0
HasTail s session call all =
    (row : LiveToolCall) × (find_call s.live_tool_calls session call ≡ some row)
    × IsTailOf all row.progress row.truncated

begun-HasTail :
    (s : Scratch) (session : SessionId) (call : CallId) (name : String)
    → HasTail (begin_live_tool_call s session call name) session call ""
unfolding begin_live_tool_call find_call
begun-HasTail s session call name = (
  record { session_id = session; call_id = call; tool = name; progress = ""; truncated = false },
  ground (arith, eq_refl session, eq_refl call),
  record { fits = omega arith; kept = inl (refl, refl) },
)

begun_other :
    (s : Scratch) (session : SessionId) (id call : CallId) (name : String)
    → str_eq id call ≡ false
    → find_call (begin_live_tool_call s session id name).live_tool_calls session call
      ≡ find_call s.live_tool_calls session call
unfolding begin_live_tool_call find_call
begun_other s session id call name h =
    ground (arith, find_call-other s.live_tool_calls session id call h)

-- A note to a call is stored in its row, if there is one.
noted_lem :
    (s : Scratch) (session : SessionId) (id : CallId) (note : String) (row : LiveToolCall)
    (p' : String) (t' : Bool)
    → find_call s.live_tool_calls session id ≡ some row
    → capped (append row.progress note) row.truncated ≡ some (p', t')
    → append_live_tool_progress s session id note
      ≡ some (record s { live_tool_calls = update_call session id p' t' s.live_tool_calls })
unfolding append_live_tool_progress
noted_lem s session id note row p' t' found e = ground arith

-- A note to another call.
other_note :
    (s : Scratch) (session : SessionId) (id call : CallId) (note : String)
    → str_eq id call ≡ false
    → (s' : Scratch) × (append_live_tool_progress s session id note ≡ some s')
      × (find_call s'.live_tool_calls session call ≡ find_call s.live_tool_calls session call)
other_note s session id call note other =
    elim (Option-cases (find_call s.live_tool_calls session id)) [
      | inl absent ↦ (s, (unfold append_live_tool_progress in ground arith), refl)
      | inr (row, found) ↦
          let (p', t', e) = capped_total (append row.progress note) row.truncated in
          (
            record s { live_tool_calls = update_call session id p' t' s.live_tool_calls },
            noted_lem s session id note row p' t' found e,
            ground (arith, find_call-update s.live_tool_calls session id call p' t', other),
          )
    ]

own_note :
    (s : Scratch) (session : SessionId) (call : CallId) (note all : String)
    → HasTail s session call all
    → (s' : Scratch) × (append_live_tool_progress s session call note ≡ some s')
      × HasTail s' session call (append all note)
own_note s session call note all (row, found, tail) =
    let (p', t', e, tail') = capped-IsTailOf all row.progress note row.truncated tail in
    let rows = s.live_tool_calls in
    (
      record s { live_tool_calls = update_call session call p' t' rows },
      noted_lem s session call note row p' t' found e,
      (
        rewritten p' t' row,
        ground (arith, find_call-update rows session call call p' t', eq_refl call, found),
        tail',
      ),
    )

note_step :
    (s : Scratch) (session : SessionId) (id call : CallId) (note all : String)
    → HasTail s session call all
    → (s' : Scratch) × (append_live_tool_progress s session id note ≡ some s')
      × HasTail s' session call (if str_eq id call then append all note else all)
note_step s session id call note all (row, found, tail) = elim (Bool-cases (str_eq id call)) [
  | inl same ↦
      let e : call ≡ id = sym ((eq_iff id call).0 same) in
      rw same (rw (← e) (own_note s session call note all (row, found, tail)))
  | inr other ↦
      let (s', stored, kept) = other_note s session id call note other in
      rw other (s', stored, (row, kept ∙ found, tail))
]

start_step :
    (s : Scratch) (session : SessionId) (id call : CallId) (name all : String)
    → HasTail s session call all
    → HasTail
        (begin_live_tool_call s session id name)
        session
        call
        (if str_eq id call then "" else all)
start_step s session id call name all (row, found, tail) = elim (Bool-cases (str_eq id call)) [
  | inl same ↦
      let e : call ≡ id = sym ((eq_iff id call).0 same) in
      rw same (rw (← e) (begun-HasTail s session call name))
  | inr other ↦ rw other (row, begun_other s session id call name other ∙ found, tail)
]

salvage_all-HasTail :
    (s : Scratch) (session : SessionId) (call : CallId) (all : String) (es : List LiveEvent)
    → HasTail s session call all
    → (s' : Scratch) × (salvage_all s session es ≡ some s')
      × HasTail s' session call (output_of call all es)
unfolding salvage
salvage_all-HasTail s session call all [] h = (s, refl, h)
salvage_all-HasTail s session call all (LiveEvent.tool_started id name ∷ es) h =
    salvage_all-HasTail (begin_live_tool_call s session id name) session call
      (if str_eq id call then "" else all) es (start_step s session id call name all h)
salvage_all-HasTail s session call all (LiveEvent.tool_progress id note ∷ es) h =
    let (s1, stored, h1) = note_step s session id call note all h in
    let (s', rest, h') =
      salvage_all-HasTail s1 session call (if str_eq id call then append all note else all) es h1 in
    (s', rw stored rest, h')
salvage_all-HasTail s session call all (e ∷ es) h = salvage_all-HasTail s session call all es h

-- Whatever live events follow the start of a call, the sink stores without a panic, and the row of
-- the call holds the tail of all that it has written since it last started: all of it, not
-- flagged as truncated, or, flagged, an end of it of at most 8192 bytes and at least 8189. But the
-- query that is to read the row back is refused.
pub salvage_all-IsTailOf :
    (s : Scratch) (session : SessionId) (call : CallId) (name : String) (es : List LiveEvent)
    → (s' : Scratch) × (row : LiveToolCall) × (salvage_all s session
          (LiveEvent.tool_started call name ∷ es)
        ≡ some s')
      × (find_call s'.live_tool_calls session call ≡ some row)
      × IsTailOf (output_of call "" es) row.progress row.truncated
      × (get_live_tool_progress s' session call ≡ inl syntax_error)
unfolding salvage get_live_tool_progress
salvage_all-IsTailOf s session call name es =
    let begun = begin_live_tool_call s session call name in
    let (s', stored, (row, found, tail)) =
      salvage_all-HasTail begun session call "" es (begun-HasTail s session call name) in
    (s', row, stored, found, tail, refl)
