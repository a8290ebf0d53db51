-- ===== src/Store/Plan/Request/Sorted.antt =====
-- The sequence numbers of a request (crates/kn9t-store/src/plan.rs): they never fall, also where a message
-- that closes a call stands under the number of the message that made it, and so the range of a
-- compaction covers its messages.
use kn9t.Prelude.{
  ℕ, zero, suc, ◌-◌, ◌/◌, ◌≤◌, ◌<◌, ◌≡◌, refl, false, inl, inr, some, List, [], ◌∷◌, ◌++◌, map,
  length, take, drop, get_elem?, All, All-imp, leb, Bool-cases, lt→ltb, arith,
}
use kn9t.Core.Message.{MsgId, CallId, Message}
use kn9t.Store.Plan.{
  Salvage, CompactSpan, seq_at, has_orphan_tool_call, snap, compact_span, call_ids, unanswered,
}
use kn9t.Store.Plan.Orphans.{Row, seqs_of, closing, closed}
use kn9t.Store.Plan.Compaction.{IsSnapped, snap-IsSnapped, get_elem?-lt, All-take, unsplit_at}
use kn9t.Store.Plan.Request.{insert_by, order_by}

abbrev pub IsSorted : List ℕ → Type 0
IsSorted [] = Unit
IsSorted (s ∷ ss) = All (λ t. s ≤ t) ss × IsSorted ss

module _ {A : Type 0} (key : A → ℕ) where
  All-insert_by :
      (n : ℕ) (a : A) (xs : List A)
      → n ≤ key a
      → All (λ t. n ≤ t) (map key xs)
      → All (λ t. n ≤ t) (map key (insert_by key a xs))
  unfolding insert_by
  All-insert_by n a [] h all = (h, tt)
  All-insert_by n a (x ∷ xs) h (hx, all) = elim (Bool-cases (leb (key a) (key x))) [
    | inl before ↦ rw before (h, (hx, all))
    | inr behind ↦ rw behind (hx, All-insert_by n a xs h all)
  ]

  insert_by-IsSorted :
      (a : A) (xs : List A) → IsSorted (map key xs) → IsSorted (map key (insert_by key a xs))
  unfolding insert_by
  insert_by-IsSorted a [] s = (tt, tt)
  insert_by-IsSorted a (x ∷ xs) (low, s) = elim (Bool-cases (leb (key a) (key x))) [
    | inl before ↦
        let le : key a ≤ key x = ground arith in
        rw before ((le, All-imp _ _ (λ t h. omega arith) (map key xs) low), (low, s))
    | inr behind ↦
        rw behind (All-insert_by (key x) a xs (ground arith) low, insert_by-IsSorted a xs s)
  ]

  pub order_by-IsSorted : (xs : List A) → IsSorted (map key (order_by key xs))
  unfolding order_by
  order_by-IsSorted [] = tt
  order_by-IsSorted (x ∷ xs) = insert_by-IsSorted x (order_by key xs) (order_by-IsSorted xs)

module _ (fresh_id : ℕ → MsgId) (salvage : Salvage) (answered : List CallId) where
  All-closing :
      (n i seq : ℕ) (ids : List CallId) (rows : List Row)
      → n ≤ seq
      → All (λ t. n ≤ t) (seqs_of rows)
      → All (λ t. n ≤ t) (seqs_of (closing fresh_id salvage i seq ids ++ rows))
  All-closing n i seq [] rows h all = all
  All-closing n i seq (id ∷ ids) rows h all = (h, all)

  All-closed :
      (n i : ℕ) (rows : List Row)
      → All (λ t. n ≤ t) (seqs_of rows)
      → All (λ t. n ≤ t) (seqs_of (closed fresh_id salvage answered i rows))
  All-closed n i [] all = tt
  All-closed n i (row ∷ rows) (h, all) = (
    h,
    All-closing n i row.0 (unanswered answered (call_ids row.1.content)) _ h
        (All-closed n (suc i) rows all),
  )

  closing-IsSorted :
      (i seq : ℕ) (ids : List CallId) (rows : List Row)
      → All (λ t. seq ≤ t) (seqs_of rows)
      → IsSorted (seqs_of rows)
      → IsSorted (seqs_of (closing fresh_id salvage i seq ids ++ rows))
  closing-IsSorted i seq [] rows all s = s
  closing-IsSorted i seq (id ∷ ids) rows all s = (all, s)

  pub closed-IsSorted :
      (i : ℕ) (rows : List Row)
      → IsSorted (seqs_of rows)
      → IsSorted (seqs_of (closed fresh_id salvage answered i rows))
  closed-IsSorted i [] s = tt
  closed-IsSorted i (row ∷ rows) (low, s) =
      let ids = unanswered answered (call_ids row.1.content) in
      let rest = All-closed row.0 (suc i) rows low in
      (
        All-closing row.0 i row.0 ids _ (omega arith) rest,
        closing-IsSorted i row.0 ids _ rest (closed-IsSorted (suc i) rows s),
      )

All-at : (ss : List ℕ) (s i t : ℕ) → All (λ u. s ≤ u) ss → get_elem? ss i ≡ some t → s ≤ t
All-at [] s i t a h = cc
All-at (u ∷ ss) s zero t a h = ground arith
All-at (u ∷ ss) s (suc i) t a h = All-at ss s i t a.1 h

sorted_split :
    (ss : List ℕ) (i t : ℕ)
    → IsSorted ss
    → get_elem? ss i ≡ some t
    → All (λ s. s ≤ t) (take (suc i) ss) × All (λ s. t ≤ s) (drop (suc i) ss)
sorted_split [] i t r h = cc
sorted_split (s ∷ ss) zero t r h = let e : s ≡ t = ground arith in ((omega arith, tt), rw (← e) r.0)
sorted_split (s ∷ ss) (suc i) t r h =
    let (low, high) = sorted_split ss i t r.1 h in ((All-at ss s i t r.0 h, low), high)

sorted_head : (ss : List ℕ) → IsSorted ss → All (λ s. seq_at ss 0 ≤ s) ss
unfolding seq_at
sorted_head [] r = tt
sorted_head (s ∷ ss) r = (omega arith, r.0)

-- The span shows the messages up to the cut; its range covers their numbers, and no later number is
-- below its end.
pub record IsCompaction (seqs : List ℕ) (messages : List Message) (cut : ℕ) (span : CompactSpan)
    : Type 0 where
  pub snapped : IsSnapped messages (length messages / 2) cut
  pub shown : span.messages ≡ take cut messages
  pub unsplit : has_orphan_tool_call span.messages ≡ false
  pub above_start : All (λ s. span.replaced.start ≤ s) (take cut seqs)
  pub below_end : All (λ s. s ≤ span.replaced.end) (take cut seqs)
  pub not_passed : All (λ s. span.replaced.end ≤ s) (drop cut seqs)

span_at-IsCompaction :
    (seqs : List ℕ) (messages : List Message) (cut end : ℕ)
    → IsSnapped messages (length messages / 2) cut
    → 0 < cut
    → IsSorted seqs
    → has_orphan_tool_call messages ≡ false
    → get_elem? seqs (cut - 1) ≡ some end
    → IsCompaction seqs messages cut (record {
      replaced = record { start = seq_at seqs 0; end = end };
      messages = take cut messages;
    })
span_at-IsCompaction seqs messages zero end s pos sorted answered found = absurd (omega arith)
span_at-IsCompaction seqs messages (suc c) end s pos sorted answered found =
    let back : suc c - 1 ≡ c = omega arith in
    let (low, high) = sorted_split seqs c end sorted (rw back at found) in
    record {
      snapped = s;
      shown = refl;
      unsplit = unsplit_at messages (length messages / 2) (suc c) s answered;
      above_start = All-take (λ t. seq_at seqs 0 ≤ t) (suc c) seqs (sorted_head seqs sorted);
      below_end = low;
      not_passed = high;
    }

pub compact_span-IsCompaction :
    (seqs : List ℕ) (messages : List Message)
    → length seqs ≡ length messages
    → 2 ≤ length messages
    → IsSorted seqs
    → has_orphan_tool_call messages ≡ false
    → (cut : ℕ) × (span : CompactSpan) × (compact_span seqs messages ≡ some span)
      × IsCompaction seqs messages cut span
unfolding compact_span
compact_span-IsCompaction seqs messages same two sorted answered =
    let n = length messages in
    let cut = snap n messages (n / 2) in
    let s = snap-IsSnapped n messages (n / 2) (omega arith) (omega arith) in
    let pos : 0 < cut = omega (arith, s.lower) in
    let (end, found) = get_elem?-lt seqs (cut - 1) (omega (arith, s.upper)) in
    (
      cut,
      record {
        replaced = record { start = seq_at seqs 0; end = end };
        messages = take cut messages;
      },
      rw (lt→ltb 0 cut pos, found),
      span_at-IsCompaction seqs messages cut end s pos sorted answered found,
    )
