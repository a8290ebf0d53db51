-- ===== src/Store/Plan/Unchanged.antt =====
-- The repair leaves a transcript alone that needs none.
use kn9t.Prelude.{
  ℕ, suc, ◌≡◌, refl, sym, ◌∙◌, ap, Bool, false, not, List, [], ◌∷◌, any, some, arith,
}
use kn9t.Core.Message.{MsgId, CallId}
use kn9t.Store.Plan.{
  Salvage, call_ids, answered_ids, has_id, unanswered, has_result, has_orphan_tool_call,
  close_orphan_tool_calls_with,
}
use kn9t.Store.Plan.Orphans.{Row, seqs_of, messages_of, closed, close_orphan_tool_calls_with-closed}
use kn9t.Store.Plan.Answered.{misses, has_result-has_id, has_orphan-misses}

unanswered-nil :
    (answered? : CallId → Bool) (answered ids : List CallId)
    → ((id : CallId) → answered? id ≡ has_id id answered)
    → any (λ id. not (answered? id)) ids ≡ false
    → unanswered answered ids ≡ []
unfolding unanswered
unanswered-nil answered? answered [] same h = refl
unanswered-nil answered? answered (id ∷ ids) same h =
    ground (arith, same id, h, unanswered-nil answered? answered ids same)

module _ (fresh_id : ℕ → MsgId) (salvage : Salvage) where
  closed_unchanged :
      (answered? : CallId → Bool) (answered : List CallId) (i : ℕ) (rows : List Row)
      → ((id : CallId) → answered? id ≡ has_id id answered)
      → any (misses answered?) (messages_of rows) ≡ false
      → closed fresh_id salvage answered i rows ≡ rows
  closed_unchanged answered? answered i [] same h = refl
  closed_unchanged answered? answered i (r ∷ rows) same h =
      let none_here =
        unanswered-nil answered? answered (call_ids r.1.content) same (ground arith) in
      let rest = closed_unchanged answered? answered (suc i) rows same (ground arith) in
      rw none_here (ap (λ t. r ∷ t) rest)

  -- A transcript in which every tool call has a result comes back as it is.
  pub close_orphan_tool_calls_with-unchanged :
      (rows : List Row)
      → has_orphan_tool_call (messages_of rows) ≡ false
      → close_orphan_tool_calls_with fresh_id salvage (seqs_of rows) (messages_of rows)
        ≡ some (seqs_of rows, messages_of rows)
  unfolding has_orphan_tool_call
  close_orphan_tool_calls_with-unchanged rows h =
      let ms = messages_of rows in
      let whole =
        closed_unchanged (has_result ms) (answered_ids ms) 0 rows (has_result-has_id ms)
          (sym (has_orphan-misses ms ms) ∙ h) in
      close_orphan_tool_calls_with-closed fresh_id salvage rows
      ∙ ap (λ rows'. some (seqs_of rows', messages_of rows')) whole
