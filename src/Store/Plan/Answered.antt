-- ===== src/Store/Plan/Answered.antt =====
-- After the repair no tool call is left without a result.
use kn9t.Prelude.{
  ℕ, suc, ◌≡◌, refl, ◌∙◌, ap, Bool, true, false, not, ◌||◌, inl, inr, List, [], ◌∷◌, ◌++◌, map, any,
  any-append, Bool-cases, str_eq, eq_refl, some, arith,
}
use kn9t.Core.Message.{MsgId, CallId, Content, tool_call, tool_result, Message}
use kn9t.Store.Plan.{
  Salvage, call_ids, result_ids, answered_ids, has_id, unanswered, interrupted_result,
  closing_message, answers, has_result, is_orphan, has_orphan_tool_call,
  close_orphan_tool_calls_with,
}
use kn9t.Store.Plan.Orphans.{
  Row, seqs_of, messages_of, closing, closed, close_orphan_tool_calls_with-closed,
}

-- A message makes a call that `answered?` denies.
abbrev pub misses : (CallId → Bool) → Message → Bool
misses answered? m = any (λ id. not (answered? id)) (call_ids m.content)

any-answers : (id : CallId) (cs : List Content) → any (answers id) cs ≡ has_id id (result_ids cs)
unfolding answers result_ids
any-answers id [] = refl
any-answers id (tool_result rid c e ∷ cs) = ground (arith, any-answers id cs)
any-answers id (c ∷ cs) = any-answers id cs

pub has_result-has_id :
    (ms : List Message) (id : CallId) → has_result ms id ≡ has_id id (answered_ids ms)
unfolding has_result answered_ids
has_result-has_id [] id = refl
has_result-has_id (m ∷ ms) id = ground (
  arith,
  any-append (λ rid. str_eq rid id) (result_ids m.content) (answered_ids ms),
  any-answers id m.content,
  has_result-has_id ms id,
)

any-is_orphan :
    (ms : List Message) (cs : List Content)
    → any (is_orphan ms) cs ≡ any (λ id. not (has_result ms id)) (call_ids cs)
unfolding is_orphan call_ids
any-is_orphan ms [] = refl
any-is_orphan ms (tool_call id n a ∷ cs) = ground (arith, any-is_orphan ms cs)
any-is_orphan ms (c ∷ cs) = any-is_orphan ms cs

call_ids-interrupted :
    (salvage : Salvage) (ids : List CallId) → call_ids (map (interrupted_result salvage) ids) ≡ []
unfolding call_ids interrupted_result
call_ids-interrupted salvage [] = refl
call_ids-interrupted salvage (id ∷ ids) = call_ids-interrupted salvage ids

result_ids-interrupted :
    (salvage : Salvage) (ids : List CallId)
    → result_ids (map (interrupted_result salvage) ids) ≡ ids
unfolding result_ids interrupted_result
result_ids-interrupted salvage [] = refl
result_ids-interrupted salvage (id ∷ ids) = ap (λ t. id ∷ t) (result_ids-interrupted salvage ids)

module _ (fresh_id : ℕ → MsgId) (salvage : Salvage) where
  answered_ids-closing :
      (i seq : ℕ) (orphans : List CallId) (rows : List Row)
      → answered_ids (messages_of (closing fresh_id salvage i seq orphans ++ rows))
        ≡ orphans ++ answered_ids (messages_of rows)
  unfolding answered_ids closing_message
  answered_ids-closing i seq [] rows = refl
  answered_ids-closing i seq (id ∷ ids) rows =
      ap (λ t. t ++ answered_ids (messages_of rows)) (result_ids-interrupted salvage (id ∷ ids))

  misses-closing :
      (answered? : CallId → Bool) (i seq : ℕ) (orphans : List CallId) (rows : List Row)
      → any (misses answered?) (messages_of (closing fresh_id salvage i seq orphans ++ rows))
        ≡ any (misses answered?) (messages_of rows)
  unfolding closing_message
  misses-closing answered? i seq [] rows = refl
  misses-closing answered? i seq (id ∷ ids) rows = rw call_ids-interrupted refl

  -- What the rows from `r` on answer, once closed.
  has_id-closed :
      (id : CallId) (answered : List CallId) (i : ℕ) (r : Row) (rows : List Row)
      → has_id id (answered_ids (messages_of (closed fresh_id salvage answered i (r ∷ rows)))) ≡ (
          has_id id (result_ids r.1.content)
          || (has_id id (unanswered answered (call_ids r.1.content))
              || has_id id
                  (answered_ids (messages_of (closed fresh_id salvage answered (suc i) rows)))))
  unfolding answered_ids
  has_id-closed id answered i r rows =
      let orphans = unanswered answered (call_ids r.1.content) in
      let rest = closed fresh_id salvage answered (suc i) rows in
      rw (answered_ids-closing, any-append)
        (ap (λ b. has_id id (result_ids r.1.content) || b)
          (any-append (λ rid. str_eq rid id) orphans (answered_ids (messages_of rest))))

  -- What was answered before is answered still.
  answered_ids-closed :
      (id : CallId) (answered : List CallId) (i : ℕ) (rows : List Row)
      → has_id id (answered_ids (messages_of rows)) ≡ true
      → has_id id (answered_ids (messages_of (closed fresh_id salvage answered i rows))) ≡ true
  unfolding answered_ids
  answered_ids-closed id answered i [] h = h
  answered_ids-closed id answered i (r ∷ rows) h = ground (
    arith,
    any-append (λ rid. str_eq rid id) (result_ids r.1.content) (answered_ids (messages_of rows)),
    has_id-closed id answered i r rows,
    answered_ids-closed id answered (suc i) rows,
  )

module _ (answered? : CallId → Bool) (answered : List CallId)
    (before : (id : CallId) → has_id id answered ≡ true → answered? id ≡ true) where
  none_missing :
      (ids : List CallId)
      → ((id : CallId) → has_id id (unanswered answered ids) ≡ true → answered? id ≡ true)
      → any (λ id. not (answered? id)) ids ≡ false
  unfolding unanswered
  none_missing [] now = refl
  none_missing (id ∷ ids) now = elim (Bool-cases (has_id id answered)) [
    | inl old ↦
        let rest = none_missing ids (λ j hj. now j (rw old hj)) in
        ground (arith, before id old, rest)
    | inr new ↦
        let here = now id (rw new (ground (arith, eq_refl id))) in
        let rest = none_missing ids (λ j hj. now j (rw new (ground (arith, hj)))) in
        ground (arith, here, rest)
  ]

  module _ (fresh_id : ℕ → MsgId) (salvage : Salvage) where
    closed_none_missing :
        (i : ℕ) (rows : List Row)
        → ((id : CallId)
            → has_id id (answered_ids (messages_of (closed fresh_id salvage answered i rows)))
              ≡ true
            → answered? id ≡ true)
        → any (misses answered?) (messages_of (closed fresh_id salvage answered i rows)) ≡ false
    closed_none_missing i [] now = refl
    closed_none_missing i (r ∷ rows) now =
        let split = λ (id : CallId). has_id-closed fresh_id salvage id answered i r rows in
        let orphans = unanswered answered (call_ids r.1.content) in
        let rest = closed fresh_id salvage answered (suc i) rows in
        let here =
          none_missing (call_ids r.1.content) (λ id h. now id (ground (arith, split id, h))) in
        let later =
          closed_none_missing (suc i) rows (λ id h. now id (ground (arith, split id, h))) in
        ground (arith, here, later, misses-closing fresh_id salvage answered? i r.0 orphans rest)

pub has_orphan-misses :
    (ms : List Message) (all : List Message)
    → any (λ m. any (is_orphan all) m.content) ms ≡ any (misses (has_result all)) ms
has_orphan-misses [] all = refl
has_orphan-misses (m ∷ ms) all =
    ground (arith, any-is_orphan all m.content, has_orphan-misses ms all)

-- The repair returns, whatever the transcript and whatever was salvaged, and in what it returns
-- every tool call has a result.
pub close_orphan_tool_calls_with-answered :
    (fresh_id : ℕ → MsgId) (salvage : Salvage) (rows : List Row)
    → (rows' : List Row) × (close_orphan_tool_calls_with fresh_id salvage
          (seqs_of rows)
          (messages_of rows)
        ≡ some (seqs_of rows', messages_of rows'))
      × (has_orphan_tool_call (messages_of rows') ≡ false)
unfolding has_orphan_tool_call
close_orphan_tool_calls_with-answered fresh_id salvage rows =
    let answered = answered_ids (messages_of rows) in
    let rows' = closed fresh_id salvage answered 0 rows in
    let ms = messages_of rows' in
    let same = has_result-has_id ms in
    (
      rows',
      close_orphan_tool_calls_with-closed fresh_id salvage rows,
      has_orphan-misses ms ms
          ∙ closed_none_missing (has_result ms) answered
              (λ id h. same id ∙ answered_ids-closed fresh_id salvage id answered 0 rows h) fresh_id
              salvage 0 rows (λ id h. same id ∙ h),
    )
