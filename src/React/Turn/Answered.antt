-- ===== src/React/Turn/Answered.antt =====
-- What a turn adds to the store, and that no tool call of it stays without a result.
use kn9t.Prelude.{
  ◌≡◌, refl, sym, ap, ◌∙◌, Bool, true, false, not, ◌||◌, List, [], ◌∷◌, ◌++◌, any, any-append,
  append_assoc, arith, str_eq, eq_refl,
}
use kn9t.Core.Message.{CallId, Message}
use kn9t.Core.Event.{Event}
use kn9t.Store.Plan.{call_ids, result_ids, answered_ids, has_id, has_result, has_orphan_tool_call}
use kn9t.Store.Plan.Answered.{misses, has_result-has_id, has_orphan-misses}

-- The messages of durable events: those that a compaction has replaced still among them, and its
-- summary.
unfoldable pub stored_message : Event → List Message
stored_message (Event.message_appended seq msg) = msg ∷ []
stored_message (Event.compacted seq replaced summary) = summary ∷ []
stored_message e = []

unfoldable pub transcript : List Event → List Message
unfolding stored_message
transcript [] = []
transcript (e ∷ es) = stored_message e ++ transcript es

pub transcript-append :
    (es fs : List Event) → transcript (es ++ fs) ≡ transcript es ++ transcript fs
unfolding transcript
transcript-append [] fs = refl
transcript-append (e ∷ es) fs =
    ap (λ t. stored_message e ++ t) (transcript-append es fs)
    ∙ sym (append_assoc (stored_message e) (transcript es) (transcript fs))

has_result-append :
    (xs ys : List Message) (id : CallId)
    → has_result (xs ++ ys) id ≡ (has_result xs id || has_result ys id)
unfolding has_result
has_result-append xs ys id = any-append _ xs ys

-- A set of results that covers another misses no more.
any-not-weaken :
    (p q : CallId → Bool) (ids : List CallId)
    → ((id : CallId) → p id ≡ true → q id ≡ true)
    → any (λ id. not (p id)) ids ≡ false
    → any (λ id. not (q id)) ids ≡ false
any-not-weaken p q [] f e = refl
any-not-weaken p q (id ∷ ids) f e = ground (arith, f id, e, any-not-weaken p q ids f)

misses-weaken :
    (p q : CallId → Bool) (ms : List Message)
    → ((id : CallId) → p id ≡ true → q id ≡ true)
    → any (misses p) ms ≡ false
    → any (misses q) ms ≡ false
misses-weaken p q [] f e = refl
misses-weaken p q (m ∷ ms) f e =
    ground (arith, any-not-weaken p q (call_ids m.content) f, e, misses-weaken p q ms f)

-- Two transcripts that answer their own calls make one that does.
pub has_orphan-append :
    (xs ys : List Message)
    → has_orphan_tool_call xs ≡ false
    → has_orphan_tool_call ys ≡ false
    → has_orphan_tool_call (xs ++ ys) ≡ false
unfolding has_orphan_tool_call
has_orphan-append xs ys ex ey =
    let both = has_result (xs ++ ys) in
    let left =
      misses-weaken (has_result xs) both xs (λ id e. ground (arith, e, has_result-append xs ys id))
        (sym (has_orphan-misses xs xs) ∙ ex) in
    let right =
      misses-weaken (has_result ys) both ys (λ id e. ground (arith, e, has_result-append xs ys id))
        (sym (has_orphan-misses ys ys) ∙ ey) in
    has_orphan-misses (xs ++ ys) (xs ++ ys)
    ∙ any-append (misses both) xs ys
    ∙ ground (arith, left, right)

any-not-covered :
    (p : CallId → Bool) (ids : List CallId)
    → ((id : CallId) → has_id id ids ≡ true → p id ≡ true)
    → any (λ id. not (p id)) ids ≡ false
any-not-covered p [] f = refl
any-not-covered p (id ∷ ids) f =
    let here = f id (ground (arith, eq_refl id)) in
    let rest = any-not-covered p ids (λ j e. f j (ground (arith, e))) in ground (arith, here, rest)

-- A message, and another that answers its calls and makes none.
pub has_orphan-pair :
    (m t : Message)
    → result_ids t.content ≡ call_ids m.content
    → call_ids t.content ≡ []
    → has_orphan_tool_call (m ∷ t ∷ []) ≡ false
unfolding has_orphan_tool_call answered_ids
has_orphan-pair m t r c =
    let ms = m ∷ t ∷ [] in
    let p = has_result ms in
    let covered = any-not-covered p (call_ids m.content) (λ id e.
      has_result-has_id ms id
      ∙ any-append (λ rid. str_eq rid id) (result_ids m.content) (result_ids t.content ++ [])
      ∙ ground (
        arith,
        any-append (λ rid. str_eq rid id) (result_ids t.content) [],
        ap (has_id id) r,
        e,
      )) in
    has_orphan-misses ms ms ∙ ground (arith, covered, ap (any (λ id. not (p id))) c)

unfoldable pub makes_calls : Message → Bool
makes_calls m = elim (call_ids m.content) [ [] ↦ false | id ∷ ids ↦ true ]

misses-quiet : (p : CallId → Bool) (m : Message) → makes_calls m ≡ false → misses p m ≡ false
unfolding makes_calls
misses-quiet p m h = ground (arith, h)

any-misses-quiet :
    (p : CallId → Bool) (ms : List Message) → any makes_calls ms ≡ false → any (misses p) ms ≡ false
any-misses-quiet p [] h = refl
any-misses-quiet p (m ∷ ms) h = ground (arith, h, misses-quiet p m, any-misses-quiet p ms)

-- Messages that make no call leave none unanswered.
pub has_orphan-quiet :
    (ms : List Message) → any makes_calls ms ≡ false → has_orphan_tool_call ms ≡ false
unfolding has_orphan_tool_call
has_orphan-quiet ms h = has_orphan-misses ms ms ∙ any-misses-quiet (has_result ms) ms h
