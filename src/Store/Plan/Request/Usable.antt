-- ===== src/Store/Plan/Request/Usable.antt =====
-- What `plan_request` (crates/kn9t-store/src/plan.rs) hands to a provider.
use mathlib.Core.Path.{ap₂}
use kn9t.Prelude.{
  keep, str_eq, ℕ, suc, ◌≡◌, refl, sym, ap, ◌∙◌, Bool, true, false, Option, none, some, List, [],
  ◌∷◌, map, length, length-map, All, inl, inr, ◌⊎◌, leb, ◌&&◌, Bool-cases, arith,
}
use kn9t.Prelude.Table.{Table}
use kn9t.Core.Cache.Bounds.{InRange, IsDistinct, breakpoints_valid}
use kn9t.Core.Message.{SessionId, Message}
use kn9t.Core.Model.{ModelSpec}
use kn9t.Store.Database.{MessageRow, Db}
use kn9t.Store.Live.{Scratch, get_live_tool_progress, ok_flatten}
use kn9t.Store.Plan.{
  Salvage, CompactSpan, repair_content, repair_unparseable_tool_args, close_orphan_tool_calls_with,
  has_orphan_tool_call, answered_ids,
}
use kn9t.Store.Plan.Orphans.{Row, seqs_of, messages_of, closed, close_orphan_tool_calls_with-closed}
use kn9t.Store.Plan.Answered.{close_orphan_tool_calls_with-answered}
use kn9t.Store.Plan.Request.{
  Readers, RequestPlan, message_at, messages_at, rows_of, total_tokens, cache_of, compaction_of,
  plan_request, get_model_spec_for_session,
}
use kn9t.Store.Plan.Request.Sorted.{
  IsSorted, order_by-IsSorted, closed-IsSorted, IsCompaction, compact_span-IsCompaction,
}
use kn9t.Store.Plan.Request.Parsable.{AllParsable, AllParsable-repaired, AllParsable-closed}

-- Nothing is read back of what was salvaged.
abbrev no_salvage : Salvage
no_salvage id = none

module _ (r : Readers) where
  -- A row of the log with its repaired message.
  abbrev repaired_at : Db → ℕ → MessageRow → Message
  repaired_at db i row =
      let m = message_at r db.blobs i row in
      record m { content = map (repair_content r.parses) m.content }

  abbrev folded : Db → ℕ → List MessageRow → List Row
  folded db i [] = []
  folded db i (row ∷ rows) = (row.seq, repaired_at db i row) ∷ folded db (suc i) rows

  seqs_of-folded :
      (db : Db) (i : ℕ) (rows : List MessageRow)
      → seqs_of (folded db i rows) ≡ map (λ m. m.seq) rows
  seqs_of-folded db i [] = refl
  seqs_of-folded db i (row ∷ rows) = ap (λ t. row.seq ∷ t) (seqs_of-folded db (suc i) rows)

  messages_of-folded :
      (db : Db) (i : ℕ) (rows : List MessageRow)
      → messages_of (folded db i rows)
        ≡ repair_unparseable_tool_args r.parses (messages_at r db.blobs i rows)
  unfolding repair_unparseable_tool_args messages_at
  messages_of-folded db i [] = refl
  messages_of-folded db i (row ∷ rows) =
      ap (λ t. repaired_at db i row ∷ t) (messages_of-folded db (suc i) rows)

  -- Each row of the session's log, in the order of the numbers, with what closes it.
  abbrev pub request_rows : Db → Scratch → SessionId → List Row
  request_rows db live session =
      let rows = folded db 0 (rows_of r db session) in
      closed r.closing_id no_salvage (answered_ids (messages_of rows)) 0 rows

  abbrev pub is_due : Option ModelSpec → (total : ℕ) → List Message → Bool
  is_due none total messages = false
  is_due (some spec) total messages =
      leb (r.threshold spec.ctx_window) total && leb 2 (length messages)

  -- A request that a provider can take, and whose compaction is due and splits nothing.
  pub record IsUsable (rows : List Row) (due : Bool) (plan : RequestPlan) : Type 0 where
    pub shown : plan.messages ≡ messages_of rows
    pub answered : has_orphan_tool_call plan.messages ≡ false
    pub parsable : AllParsable r.parses plan.messages
    pub marked : All (InRange (length plan.messages)) plan.cache
    pub distinct : IsDistinct plan.cache
    pub compaction :
        (due ≡ false) × (plan.compact ≡ none)
        ⊎ ((cut : ℕ) × (span : CompactSpan) × (due ≡ true)
            × (plan.compact ≡ some span)
            × IsCompaction (seqs_of rows) plan.messages cut span)

  request_rows-answered :
      (db : Db) (live : Scratch) (session : SessionId)
      → has_orphan_tool_call (messages_of (request_rows db live session)) ≡ false
  request_rows-answered db live session =
      let rows = folded db 0 (rows_of r db session) in
      let salvage = no_salvage in
      let (rows', same, answered) =
        close_orphan_tool_calls_with-answered r.closing_id salvage rows in
      let closes = close_orphan_tool_calls_with-closed r.closing_id salvage rows in
      let e : messages_of (request_rows db live session) ≡ messages_of rows' = cc in
      ap has_orphan_tool_call e ∙ answered

  request_rows-parsable :
      (db : Db) (live : Scratch) (session : SessionId)
      → r.parses "{}" ≡ true
      → AllParsable r.parses (messages_of (request_rows db live session))
  request_rows-parsable db live session h =
      let rows = rows_of r db session in
      AllParsable-closed r.parses r.closing_id no_salvage _ 0 (folded db 0 rows)
        (rw messages_of-folded (AllParsable-repaired r.parses (messages_at r db.blobs 0 rows) h))

  request_rows-IsSorted :
      (db : Db) (live : Scratch) (session : SessionId)
      → IsSorted (seqs_of (request_rows db live session))
  unfolding rows_of
  request_rows-IsSorted db live session = closed-IsSorted r.closing_id no_salvage _ 0 _ (
      rw seqs_of-folded (
        order_by-IsSorted (λ (m : MessageRow). m.seq)
          (keep (λ (m : MessageRow). str_eq m.session_id session) db.messages)))

  cache_of_valid :
      (spec : Option ModelSpec) (ms : List Message)
      → All (InRange (length ms)) (cache_of r spec ms) × IsDistinct (cache_of r spec ms)
  unfolding cache_of
  cache_of_valid none ms = (tt, tt)
  cache_of_valid (some spec) ms = breakpoints_valid ms spec.cache

  -- What `compaction_of` finds.
  compaction_of_lem :
      (spec : Option ModelSpec) (total : ℕ) (rows : List Row)
      → IsSorted (seqs_of rows)
      → has_orphan_tool_call (messages_of rows) ≡ false
      → (compact : Option CompactSpan) × (compaction_of r spec total
            (seqs_of rows)
            (messages_of rows)
          ≡ some compact)
        × ((is_due spec total (messages_of rows) ≡ false) × (compact ≡ none)
            ⊎ ((cut : ℕ) × (span : CompactSpan) × (is_due spec total (messages_of rows) ≡ true)
                × (compact ≡ some span)
                × IsCompaction (seqs_of rows) (messages_of rows) cut span))
  unfolding compaction_of
  compaction_of_lem none total rows sorted answered = (none, refl, inl (refl, refl))
  compaction_of_lem (some spec) total rows sorted answered =
      let messages = messages_of rows in
      elim (Bool-cases (is_due (some spec) total messages)) [
        | inl due ↦
            let same = length-map rows (λ x. x.0) ∙ sym (length-map rows (λ x. x.1)) in
            let (cut, span, found, good) =
              compact_span-IsCompaction (seqs_of rows) messages same (ground arith) sorted
                answered in
            (some span, rw (due, found), inr (cut, span, due, refl, good))
        | inr idle ↦ (none, rw idle, inl (idle, refl))
      ]

  plan_request-planned :
      (db : Db) (live : Scratch) (specs : Table ModelSpec) (session : SessionId) (seqs : List ℕ)
      (messages : List Message) (compact : Option CompactSpan)
      → close_orphan_tool_calls_with r.closing_id no_salvage
          (map (λ m. m.seq) (rows_of r db session))
          (repair_unparseable_tool_args r.parses (messages_at r db.blobs 0 (rows_of r db session)))
        ≡ some (seqs, messages)
      → compaction_of r
          (get_model_spec_for_session r db specs session)
          (total_tokens r db session)
          seqs
          messages
        ≡ some compact
      → plan_request r db live specs session
        ≡ some (record {
          system = none;
          messages = messages;
          cache = cache_of r (get_model_spec_for_session r db specs session) messages;
          compact = compact;
        })
  unfolding plan_request get_live_tool_progress ok_flatten
  plan_request-planned db live specs session seqs messages compact closes found =
      rw closes (rw found)

  -- If "{}" parses as JSON, the plan of a request is made, whatever the tables hold: its
  -- messages are the session's, in the order of their numbers, each followed by what closes its
  -- calls, in which nothing of what was salvaged of them is shown; every tool call has a result and arguments that parse; each cache mark
  -- stands at a message that is there, and no mark repeats; and exactly if the tokens reach the
  -- threshold of the model, and there are two messages, there is a span to compact, which splits no
  -- call from its result, and whose range covers its messages and passes no later one.
  pub plan_request-IsUsable :
      (db : Db) (live : Scratch) (specs : Table ModelSpec) (session : SessionId)
      → r.parses "{}" ≡ true
      → (plan : RequestPlan) × (plan_request r db live specs session ≡ some plan)
        × (let rows = request_rows db live session in
            let spec = get_model_spec_for_session r db specs session in
            IsUsable rows (is_due spec (total_tokens r db session) (messages_of rows)) plan)
  plan_request-IsUsable db live specs session h =
      let before = folded db 0 (rows_of r db session) in
      let rows = request_rows db live session in
      let spec = get_model_spec_for_session r db specs session in
      let salvage = no_salvage in
      let answered = request_rows-answered db live session in
      let (compact, found, due) =
        compaction_of_lem spec (total_tokens r db session) rows
          (request_rows-IsSorted db live session) answered in
      let (marked, distinct) = cache_of_valid spec (messages_of rows) in
      let closes = close_orphan_tool_calls_with-closed r.closing_id salvage before in
      let closes' =
        ap₂ (close_orphan_tool_calls_with r.closing_id salvage)
          (sym (seqs_of-folded db 0 (rows_of r db session)))
          (sym (messages_of-folded db 0 (rows_of r db session)))
        ∙ closes in
      (
        record {
          system = none;
          messages = messages_of rows;
          cache = cache_of r spec (messages_of rows);
          compact = compact;
        },
        plan_request-planned db live specs session (seqs_of rows) (messages_of rows) compact closes'
            found,
        record {
          shown = refl;
          answered = answered;
          parsable = request_rows-parsable db live session h;
          marked = marked;
          distinct = distinct;
          compaction = due;
        },
      )
