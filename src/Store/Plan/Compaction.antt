-- ===== src/Store/Plan/Compaction.antt =====
-- The span that `compact_span` picks.
use kn9t.Prelude.{
  ℕ, zero, suc, ◌+◌, ◌-◌, ◌/◌, ◌≤◌, ◌<◌, ◌≡◌, refl, true, false, ◌⊎◌, inl, inr, some, List, [], ◌∷◌,
  length, take, drop, get_elem?, take-all, All, leb, Bool-cases, subst, upto, lt→ltb, arith,
}
use kn9t.Core.Message.{Message}
use kn9t.Store.Plan.{CompactSpan, seq_at, has_orphan_tool_call, snap, compact_span}

-- The cut stays between where it starts and the end, every earlier cut would have split a call
-- from its result, and the cut itself does not, unless it is the end.
pub record IsSnapped (messages : List Message) (from cut : ℕ) : Type 0 where
  pub lower : from ≤ cut
  pub upper : cut ≤ length messages
  pub whole : (cut ≡ length messages) ⊎ (has_orphan_tool_call (take cut messages) ≡ false)
  pub least : All (λ k. has_orphan_tool_call (take k messages) ≡ true) (upto from (cut - from))

at_cut-IsSnapped :
    (messages : List Message) (cut : ℕ)
    → cut ≤ length messages
    → (cut ≡ length messages) ⊎ (has_orphan_tool_call (take cut messages) ≡ false)
    → IsSnapped messages cut cut
at_cut-IsSnapped messages cut h w =
    let e : cut - cut ≡ 0 = omega arith in
    record { lower = omega arith; upper = h; whole = w; least = rw e tt }

further-IsSnapped :
    (messages : List Message) (from cut : ℕ)
    → has_orphan_tool_call (take from messages) ≡ true
    → IsSnapped messages (from + 1) cut
    → IsSnapped messages from cut
further-IsSnapped messages from cut split later =
    let e : cut - from ≡ suc (cut - (from + 1)) = omega (arith, later.lower) in
    let next : from + 1 ≡ suc from = omega arith in
    record {
      lower = omega (arith, later.lower);
      upper = later.upper;
      whole = later.whole;
      least = rw (e, ← next) (split, later.least);
    }

pub snap-IsSnapped :
    (fuel : ℕ) (messages : List Message) (cut : ℕ)
    → cut ≤ length messages
    → length messages ≤ fuel + cut
    → IsSnapped messages cut (snap fuel messages cut)
unfolding snap
snap-IsSnapped zero messages cut h f = at_cut-IsSnapped messages cut h (inl (omega arith))
snap-IsSnapped (suc fuel) messages cut h f = elim (Bool-cases (leb (length messages) cut)) [
  | inl end ↦ rw end (at_cut-IsSnapped messages cut h (inl (ground arith)))
  | inr go ↦ elim (Bool-cases (has_orphan_tool_call (take cut messages))) [
    | inl split ↦
        let later = snap-IsSnapped fuel messages (cut + 1) (ground arith) (omega arith) in
        rw (go, split) (further-IsSnapped messages cut (snap fuel messages (cut + 1)) split later)
    | inr fits ↦ rw (go, fits) (at_cut-IsSnapped messages cut h (inr fits))
  ]
]

-- Strictly rising sequence numbers.
abbrev pub IsRising : List ℕ → Type 0
IsRising [] = Unit
IsRising (s ∷ ss) = All (λ t. s < t) ss × IsRising ss

All-get : (ss : List ℕ) (s i t : ℕ) → All (λ u. s < u) ss → get_elem? ss i ≡ some t → s < t
All-get [] s i t a h = cc
All-get (u ∷ ss) s zero t a h = ground arith
All-get (u ∷ ss) s (suc i) t a h = All-get ss s i t a.1 h

rising_split :
    (ss : List ℕ) (i t : ℕ)
    → IsRising ss
    → get_elem? ss i ≡ some t
    → All (λ s. s ≤ t) (take (suc i) ss) × All (λ s. t < s) (drop (suc i) ss)
rising_split [] i t r h = cc
rising_split (s ∷ ss) zero t r h =
    let e : s ≡ t = ground arith in ((omega arith, tt), subst (λ u. All (λ v. u < v) ss) e r.0)
rising_split (s ∷ ss) (suc i) t r h =
    let (low, high) = rising_split ss i t r.1 h in
    ((omega (arith, All-get ss s i t r.0 h), low), high)

pub get_elem?-lt : (ss : List ℕ) (i : ℕ) → i < length ss → (s : ℕ) × (get_elem? ss i ≡ some s)
get_elem?-lt [] i h = absurd (omega arith)
get_elem?-lt (s ∷ ss) zero h = (s, refl)
get_elem?-lt (s ∷ ss) (suc i) h = get_elem?-lt ss i (omega arith)

pub All-take : (P : ℕ → Type 0) (n : ℕ) (ss : List ℕ) → All P ss → All P (take n ss)
All-take P zero ss a = tt
All-take P (suc n) [] a = tt
All-take P (suc n) (s ∷ ss) a = (a.0, All-take P n ss a.1)

All-le_of_lt : (s : ℕ) (ss : List ℕ) → All (λ t. s < t) ss → All (λ t. s ≤ t) ss
All-le_of_lt s [] a = tt
All-le_of_lt s (t ∷ ss) a = (omega arith, All-le_of_lt s ss a.1)

rising_head : (ss : List ℕ) → IsRising ss → All (λ s. seq_at ss 0 ≤ s) ss
unfolding seq_at
rising_head [] r = tt
rising_head (s ∷ ss) r = (omega arith, All-le_of_lt s ss r.0)

-- The span replaces the numbers up to the cut and no later one, and shows the messages there.
pub record IsSpan (seqs : List ℕ) (messages : List Message) (cut : ℕ) (span : CompactSpan)
    : Type 0 where
  pub snapped : IsSnapped messages (length messages / 2) cut
  pub shown : span.messages ≡ take cut messages
  pub unsplit : has_orphan_tool_call span.messages ≡ false
  pub above_start : All (λ s. span.replaced.start ≤ s) (take cut seqs)
  pub below_end : All (λ s. s ≤ span.replaced.end) (take cut seqs)
  pub later_kept : All (λ s. span.replaced.end < s) (drop cut seqs)

abbrev span_at : List ℕ → List Message → ℕ → ℕ → CompactSpan
span_at seqs messages cut end = record {
  replaced = record { start = seq_at seqs 0; end = end };
  messages = take cut messages;
}

pub unsplit_at :
    (messages : List Message) (from cut : ℕ)
    → IsSnapped messages from cut
    → has_orphan_tool_call messages ≡ false
    → has_orphan_tool_call (take cut messages) ≡ false
unsplit_at messages from cut s answered = elim s.whole [
  | inl e ↦ rw (take-all cut messages (omega (arith, e))) answered
  | inr h ↦ h
]

span_at-IsSpan :
    (seqs : List ℕ) (messages : List Message) (cut end : ℕ)
    → IsSnapped messages (length messages / 2) cut
    → 0 < cut
    → IsRising seqs
    → has_orphan_tool_call messages ≡ false
    → get_elem? seqs (cut - 1) ≡ some end
    → IsSpan seqs messages cut (span_at seqs messages cut end)
span_at-IsSpan seqs messages zero end s pos rising answered found = absurd (omega arith)
span_at-IsSpan seqs messages (suc c) end s pos rising answered found =
    let back : suc c - 1 ≡ c = omega arith in
    let (low, high) = rising_split seqs c end rising (rw back at found) in
    record {
      snapped = s;
      shown = refl;
      unsplit = unsplit_at messages (length messages / 2) (suc c) s answered;
      above_start = All-take (λ t. seq_at seqs 0 ≤ t) (suc c) seqs (rising_head seqs rising);
      below_end = low;
      later_kept = high;
    }

-- Of at least two messages with rising sequence numbers, in which every call has a result, the
-- span is found; it starts with the first message and ends at the first cut from the middle on
-- that splits no call from its result, and its range of numbers covers exactly those messages.
pub compact_span-IsSpan :
    (seqs : List ℕ) (messages : List Message)
    → length seqs ≡ length messages
    → 2 ≤ length messages
    → IsRising seqs
    → has_orphan_tool_call messages ≡ false
    → (cut : ℕ) × (span : CompactSpan) × (compact_span seqs messages ≡ some span)
      × IsSpan seqs messages cut span
unfolding compact_span
compact_span-IsSpan seqs messages same two rising answered =
    let n = length messages in
    let cut = snap n messages (n / 2) in
    let s = snap-IsSnapped n messages (n / 2) (omega arith) (omega arith) in
    let pos : 0 < cut = omega (arith, s.lower) in
    let (end, found) = get_elem?-lt seqs (cut - 1) (omega (arith, s.upper)) in
    (
      cut,
      span_at seqs messages cut end,
      rw (lt→ltb 0 cut pos, found),
      span_at-IsSpan seqs messages cut end s pos rising answered found,
    )
