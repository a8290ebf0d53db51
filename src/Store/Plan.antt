-- ===== src/Store/Plan.antt =====
-- crates/kn9t-store/src/plan.rs: the repairs of the folded transcript and the span to compact.
-- Whether a text parses as JSON (`serde_json`) is the parameter `parses`; the fresh identifier of
-- each inserted message (`MsgId::new`) is the parameter `fresh_id`, taken at the message's place;
-- the salvaged output of a call is the callback that the source passes too.
pub mod Orphans
pub mod Answered
pub mod Unchanged
pub mod Compaction
pub mod Request
use Prim.Native.Char.{code}
use Prim.Native.String.{◌++◌ as append}
use mathlib.Core.List.{flat_map}
use kn9t.Prelude.{
  ℕ, zero, suc, ◌+◌, ◌-◌, ◌/◌, String, Bool, true, false, not, ◌||◌, ◌&&◌, Option, none, some, List,
  [], ◌∷◌, ◌++◌, map, length, take, get_elem?, any, str_eq, ltb, leb, ◌==◌, if◌then◌else◌,
}
use kn9t.Core.Message.{
  Role, tool, MsgId, CallId, Content, Contents, text, tool_call, tool_result, nil, cons, Message,
}
use kn9t.Prelude.Whitespace.{is_whitespace}
use kn9t.Prelude.Maybe.{◌>>=◌}
use mathlib.Core.Option
use kn9t.Core.Event.{SeqRange}

-- `serde_json::from_str::<Value>(args_json).is_err()` replaces the arguments by `{}`.
unfoldable pub repair_content : (parses : String → Bool) → Content → Content
repair_content parses (tool_call id name args_json) =
    tool_call id name (if parses args_json then args_json else "{}")
repair_content parses c = c

unfoldable pub repair_unparseable_tool_args : (parses : String → Bool) → List Message → List Message
unfolding repair_content
repair_unparseable_tool_args parses =
    map (λ (m : Message). record m { content = map (repair_content parses) m.content })

-- The calls that a list of blocks makes and answers.
unfoldable pub call_ids : List Content → List CallId
call_ids [] = []
call_ids (tool_call id _ _ ∷ cs) = id ∷ call_ids cs
call_ids (c ∷ cs) = call_ids cs

unfoldable pub result_ids : List Content → List CallId
result_ids [] = []
result_ids (tool_result id _ _ ∷ cs) = id ∷ result_ids cs
result_ids (c ∷ cs) = result_ids cs

-- The ids that any block of any message answers.
unfoldable pub answered_ids : List Message → List CallId
unfolding result_ids
answered_ids [] = []
answered_ids (m ∷ ms) = result_ids m.content ++ answered_ids ms

abbrev pub has_id : CallId → List CallId → Bool
has_id id = any (λ rid. str_eq rid id)

-- The calls of one message that the set `answered` lacks.
unfoldable pub unanswered : List CallId → List CallId → List CallId
unanswered answered [] = []
unanswered answered (id ∷ ids) =
    let rest = unanswered answered ids in if has_id id answered then rest else id ∷ rest

-- `s.trim().is_empty()`
unfoldable pub is_blank : String → Bool
unfolding is_whitespace
is_blank String.[] = true
is_blank (String.◌∷◌ c s) = is_whitespace (code c) && is_blank s

abbrev pub interrupted_tool_result : String
interrupted_tool_result =
    "Tool call interrupted: kn9t exited before this tool reported a result. The call may or may not have taken effect — verify before relying on it."

-- What a salvage callback returns: the tool, its output so far, and whether output was dropped.
abbrev pub Salvage : Type 0
Salvage = CallId → Option (String × String × Bool)

unfoldable pub interrupted_text : Option (String × String × Bool) → String
unfolding is_blank
interrupted_text none = interrupted_tool_result
interrupted_text (some (_, progress, truncated)) =
    if is_blank progress
    then interrupted_tool_result
    else append interrupted_tool_result (
        append "\nPartial output before the interruption:"
          (append (if truncated then "\n[earlier output dropped]\n" else "\n") progress))

unfoldable pub interrupted_result : Salvage → CallId → Content
unfolding interrupted_text
interrupted_result salvage id =
    tool_result id (cons (text (interrupted_text (salvage id))) nil) true

-- The message inserted after message `i` for its unanswered calls.
unfoldable pub closing_message : (fresh_id : ℕ → MsgId) → Salvage → ℕ → List CallId → Message
unfolding interrupted_result
closing_message fresh_id salvage i orphans = record {
  id = fresh_id i;
  role = tool;
  content = map (interrupted_result salvage) orphans;
  silent = false;
}

-- `Vec::insert`, which panics past the end.
unfoldable pub insert {ℓ} : {A : Type ℓ} → ℕ → A → List A → Option (List A)
insert zero a xs = some (a ∷ xs)
insert (suc i) a [] = none
insert (suc i) a (x ∷ xs) = Option.map (λ rest. x ∷ rest) (insert i a xs)

-- `seqs.get(i).copied().unwrap_or(1)`
unfoldable pub seq_at : List ℕ → ℕ → ℕ
seq_at seqs i = elim (get_elem? seqs i) [ some seq ↦ seq | none ↦ 1 ]

-- The two vectors that the repair keeps in step; `none` is a panic.
abbrev pub Rows : Type 0
Rows = Option (List ℕ × List Message)

unfoldable pub insert_closing :
    (fresh_id : ℕ → MsgId) → Salvage → ℕ → List CallId → List ℕ → List Message → Rows
unfolding insert closing_message seq_at
insert_closing fresh_id salvage i [] seqs messages = some (seqs, messages)
insert_closing fresh_id salvage i (id ∷ ids) seqs messages = do
  messages' ← insert (suc i) (closing_message fresh_id salvage i (id ∷ ids)) messages
  seqs' ← insert (suc i) (seq_at seqs i) seqs
  some (seqs', messages')

-- The body of the loop at index `i`.
unfoldable pub close_at :
    (fresh_id : ℕ → MsgId) → Salvage → List CallId → ℕ → List ℕ → List Message → Rows
unfolding insert_closing call_ids unanswered
close_at fresh_id salvage answered i seqs messages = do
  m ← get_elem? messages i
  insert_closing fresh_id salvage i (unanswered answered (call_ids m.content)) seqs messages

-- `for i in (0..messages.len()).rev()`, with `n` indices left.
unfoldable pub close_below :
    (fresh_id : ℕ → MsgId) → Salvage → List CallId → ℕ → List ℕ → List Message → Rows
unfolding close_at
close_below fresh_id salvage answered zero seqs messages = some (seqs, messages)
close_below fresh_id salvage answered (suc i) seqs messages = do
  (seqs', messages') ← close_at fresh_id salvage answered i seqs messages
  close_below fresh_id salvage answered i seqs' messages'

unfoldable pub close_orphan_tool_calls_with :
    (fresh_id : ℕ → MsgId) → Salvage → List ℕ → List Message → Rows
unfolding close_below answered_ids
close_orphan_tool_calls_with fresh_id salvage seqs messages =
    close_below fresh_id salvage (answered_ids messages) (length messages) seqs messages

unfoldable pub close_orphan_tool_calls : (fresh_id : ℕ → MsgId) → List ℕ → List Message → Rows
unfolding close_orphan_tool_calls_with
close_orphan_tool_calls fresh_id = close_orphan_tool_calls_with fresh_id (λ _. none)

unfoldable pub answers : CallId → Content → Bool
answers id (tool_result rid _ _) = str_eq rid id
answers id c = false

unfoldable pub has_result : List Message → CallId → Bool
unfolding answers
has_result msgs id = any (λ m. any (answers id) m.content) msgs

unfoldable pub is_orphan : List Message → Content → Bool
unfolding has_result
is_orphan msgs (tool_call id _ _) = not (has_result msgs id)
is_orphan msgs c = false

unfoldable pub has_orphan_tool_call : List Message → Bool
unfolding is_orphan
has_orphan_tool_call msgs = any (λ m. any (is_orphan msgs) m.content) msgs

pub record CompactSpan : Type 0 where
  pub replaced : SeqRange
  pub messages : List Message

-- The loop that moves the cut up, on fuel.
unfoldable pub snap : ℕ → List Message → ℕ → ℕ
unfolding has_orphan_tool_call
snap zero messages cut = cut
snap (suc fuel) messages cut =
    let further = snap fuel messages (cut + 1) in
    if leb (length messages) cut
    then cut
    else if has_orphan_tool_call (take cut messages)
    then further
    else cut

-- `none` is the panic of `seqs[cut - 1]` out of bounds. The fuel is one round for each message.
unfoldable pub compact_span : List ℕ → List Message → Option CompactSpan
unfolding snap seq_at
compact_span seqs messages =
    let n = length messages in
    let cut = snap n messages (n / 2) in
    let start_seq = seq_at seqs 0 in
    do
      end_seq ← if ltb 0 cut then get_elem? seqs (cut - 1) else some start_seq
      some (record {
        replaced = record { start = start_seq; end = end_seq };
        messages = take cut messages;
      })
