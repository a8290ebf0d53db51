-- ===== src/Store/Plan/Orphans.antt =====
-- The backward loop that closes orphaned tool calls, against a plain description of its result.
use kn9t.Prelude.{
  ℕ, zero, suc, ◌+◌, ◌≡◌, refl, sym, ◌∙◌, ap, some, List, [], ◌∷◌, ◌++◌, map, map-append, length,
  length-map, split_last, get_elem?, append_assoc, append-nil, arith,
}
use kn9t.Core.Message.{MsgId, CallId, Message}
use kn9t.Store.Plan.{
  Salvage, call_ids, unanswered, answered_ids, insert, seq_at, closing_message, insert_closing,
  close_at, close_below, close_orphan_tool_calls_with,
}

-- A message with its sequence number.
abbrev pub Row : Type 0
Row = ℕ × Message

abbrev pub seqs_of : List Row → List ℕ
seqs_of rows = map (λ r. r.0) rows

abbrev pub messages_of : List Row → List Message
messages_of rows = map (λ r. r.1) rows

module _ (fresh_id : ℕ → MsgId) (salvage : Salvage) where
  -- After row `i`: a message that closes its calls, under the same number, if there are any.
  abbrev pub closing : ℕ → ℕ → List CallId → List Row
  closing i seq [] = []
  closing i seq (id ∷ ids) = (seq, closing_message fresh_id salvage i (id ∷ ids)) ∷ []

  -- The rows from index `i` on, each with what closes it.
  abbrev pub closed : List CallId → ℕ → List Row → List Row
  closed answered i [] = []
  closed answered i (r ∷ rows) =
      r ∷ closing i r.0 (unanswered answered (call_ids r.1.content)) ++ closed answered (suc i) rows

get_elem?-rows :
    {A : Type 0} (f : Row → A) (i : ℕ) (pre post : List Row) (r : Row)
    → length pre ≡ i
    → get_elem? (map f (pre ++ r ∷ post)) i ≡ some (f r)
get_elem?-rows f zero [] post r h = refl
get_elem?-rows f zero (x ∷ pre) post r h = absurd (omega arith)
get_elem?-rows f (suc i) [] post r h = absurd (omega arith)
get_elem?-rows f (suc i) (x ∷ pre) post r h = get_elem?-rows f i pre post r (omega arith)

-- Vectors are cut at index `i`.
insert_after {ℓ} :
    {A : Type ℓ} (i : ℕ) (xs ys : List A) (x a : A)
    → length xs ≡ i
    → insert (suc i) a (xs ++ x ∷ ys) ≡ some (xs ++ x ∷ a ∷ ys)
unfolding insert
insert_after zero [] ys x a h = refl
insert_after zero (y ∷ xs) ys x a h = absurd (omega arith)
insert_after (suc i) [] ys x a h = absurd (omega arith)
insert_after (suc i) (y ∷ xs) ys x a h =
    unfold insert in rw (insert_after i xs ys x a (omega arith))

module _ (fresh_id : ℕ → MsgId) (salvage : Salvage) where
  seq_at-rows :
      (i : ℕ) (pre post : List Row) (r : Row)
      → length pre ≡ i
      → seq_at (seqs_of (pre ++ r ∷ post)) i ≡ r.0
  unfolding seq_at
  seq_at-rows i pre post r h = ground (arith, get_elem?-rows (λ x. x.0) i pre post r h)

  insert_closing-rows :
      (i : ℕ) (ids : List CallId) (pre post : List Row) (r : Row)
      → length pre ≡ i
      → insert_closing fresh_id salvage i ids
          (seqs_of (pre ++ r ∷ post))
          (messages_of (pre ++ r ∷ post))
        ≡ (let rows = pre ++ r ∷ (closing fresh_id salvage i r.0 ids ++ post) in
            some (seqs_of rows, messages_of rows))
  unfolding insert_closing
  insert_closing-rows i [] pre post r h = refl
  insert_closing-rows i (id ∷ ids) pre post r h =
      let cm = closing_message fresh_id salvage i (id ∷ ids) in
      let im =
        insert_after i (messages_of pre) (messages_of post) r.1 cm
          (length-map pre (λ r. r.1) ∙ h) in
      let is =
        insert_after i (seqs_of pre) (seqs_of post) r.0 r.0 (length-map pre (λ r. r.0) ∙ h) in
      rw (seq_at-rows i pre post r h) (simp map-append (rw (im, is)))

  module _ (answered : List CallId) where
    abbrev pub closing_of : ℕ → Row → List Row
    closing_of i r = closing fresh_id salvage i r.0 (unanswered answered (call_ids r.1.content))

    close_at-rows :
        (i : ℕ) (pre post : List Row) (r : Row)
        → length pre ≡ i
        → close_at fresh_id salvage answered i
            (seqs_of (pre ++ r ∷ post))
            (messages_of (pre ++ r ∷ post))
          ≡ (let rows = pre ++ r ∷ (closing_of i r ++ post) in
              some (seqs_of rows, messages_of rows))
    unfolding close_at
    close_at-rows i pre post r h =
        rw (get_elem?-rows (λ r. r.1) i pre post r h)
          (insert_closing-rows i (unanswered answered (call_ids r.1.content)) pre post r h)

    closed-append :
        (i : ℕ) (xs ys : List Row)
        → closed fresh_id salvage answered i (xs ++ ys)
          ≡ closed fresh_id salvage answered i xs
            ++ closed fresh_id salvage answered (i + length xs) ys
    closed-append i [] ys =
        let e : i ≡ i + 0 = omega arith in ap (λ k. closed fresh_id salvage answered k ys) e
    closed-append i (x ∷ xs) ys =
        let e : suc i + length xs ≡ i + suc (length xs) = omega arith in
        let shift =
          ap
            (λ k.
              closed fresh_id salvage answered (suc i) xs ++ closed fresh_id salvage answered k ys)
            e in
        ap (λ t. x ∷ (closing_of i x ++ t)) (closed-append (suc i) xs ys ∙ shift)
        ∙ ap (λ t. x ∷ t) (sym (append_assoc (closing_of i x) _ _))

    closed-snoc :
        (n : ℕ) (init post : List Row) (x : Row)
        → length init ≡ n
        → closed fresh_id salvage answered 0 init ++ x ∷ (closing_of n x ++ post)
          ≡ closed fresh_id salvage answered 0 (init ++ x ∷ []) ++ post
    closed-snoc n init post x l =
        let e : 0 + length init ≡ n = omega (arith, l) in
        let before = closed fresh_id salvage answered 0 init in
        let whole =
          closed-append 0 init (x ∷ [])
          ∙ ap (λ k. before ++ closed fresh_id salvage answered k (x ∷ [])) e
          ∙ ap (λ t. before ++ x ∷ t) (append-nil (closing_of n x)) in
        sym (ap (λ t. t ++ post) whole ∙ append_assoc before (x ∷ closing_of n x) post)

    -- The loop has still to look at the rows of `pre`, and has closed those behind.
    close_below-rows :
        (n : ℕ) (pre post : List Row)
        → length pre ≡ n
        → close_below fresh_id salvage answered n
            (seqs_of (pre ++ post))
            (messages_of (pre ++ post))
          ≡ (let rows = closed fresh_id salvage answered 0 pre ++ post in
              some (seqs_of rows, messages_of rows))
    unfolding close_below
    close_below-rows zero [] post h = refl
    close_below-rows zero (x ∷ pre) post h = absurd (omega arith)
    close_below-rows (suc n) pre post h =
        let (init, x, e, l) = split_last pre n h in
        let step = close_at-rows n init post x l in
        let rest = close_below-rows n init (x ∷ (closing_of n x ++ post)) l in
        rw (e, append_assoc)
          (rw step (
            rest
            ∙ ap (λ rows. some (seqs_of rows, messages_of rows)) (closed-snoc n init post x l)))

  -- Of vectors of one length, the repair never panics, and returns each row followed, if it makes
  -- calls that no message answers, by one message that closes these, under the same number.
  pub close_orphan_tool_calls_with-closed :
      (rows : List Row)
      → close_orphan_tool_calls_with fresh_id salvage (seqs_of rows) (messages_of rows) ≡ (
          let rows' = closed fresh_id salvage (answered_ids (messages_of rows)) 0 rows in
          some (seqs_of rows', messages_of rows'))
  unfolding close_orphan_tool_calls_with
  close_orphan_tool_calls_with-closed rows =
      let answered = answered_ids (messages_of rows) in
      let e : length (messages_of rows) ≡ length rows = length-map rows (λ r. r.1) in
      let run = close_below-rows answered (length rows) rows [] refl in
      rw e (simp append-nil at run)
