-- ===== src/Server/Attach/Continuity.antt =====
-- What `contiguous_through` and `gap_detected` tell the client.
use kn9t.Prelude.{
  ℕ, suc, ◌+◌, ◌-◌, ◌≤◌, ◌<◌, String, ◌≡◌, refl, sym, ◌∙◌, ap, subst, Bool, true, false, not,
  Option, none, some, List, [], ◌∷◌, ◌++◌, leb, ◌==◌, arith, Option-cases, Bool-cases, inl, inr,
  ◌⊎◌, All, All-imp, IsRising, upto,
}
use kn9t.Core.Event.{Event, seq_of}
use kn9t.Server.Attach.{AttachPrelude, flush_one, flush, build_attach_prelude}
use kn9t.Server.Attach.Frames.{new_events}

-- The sequence numbers of the durable events of a list.
abbrev pub add_seq : Option ℕ → List ℕ → List ℕ
add_seq none ss = ss
add_seq (some s) ss = s ∷ ss

abbrev pub seqs : List Event → List ℕ
seqs [] = []
seqs (e ∷ es) = add_seq (seq_of e) (seqs es)

abbrev pub is_nil : List ℕ → Bool
is_nil [] = true
is_nil (s ∷ ss) = false

-- Of the numbers above `head`, those up to `through` are all there, and `gap` says whether there are
-- others, all of which lie beyond a hole.
pub record IsContinuous (head through : ℕ) (gap : Bool) (numbers : List ℕ) : Type 0 where
  pub beyond : List ℕ
  pub reached : head ≤ through
  pub split : numbers ≡ upto (suc head) (through - head) ++ beyond
  pub flagged : gap ≡ not (is_nil beyond)
  pub holed : All (λ s. suc through < s) beyond

transfer :
    {h h' t : ℕ} {gap : Bool} {ns ns' : List ℕ}
    → h ≡ h'
    → ns ≡ ns'
    → IsContinuous h t gap ns
    → IsContinuous h' t gap ns'
transfer {t} {gap} {ns'} he ne c =
    subst (λ h. IsContinuous h t gap ns') he (subst (IsContinuous _ t gap) ne c)

advance :
    {h t : ℕ} {gap : Bool} {ns : List ℕ}
    → IsContinuous (suc h) t gap ns
    → IsContinuous h t gap (suc h ∷ ns)
advance {h} {t} c =
    let reach = c.reached in
    let one_more : t - h ≡ suc (t - suc h) = omega arith in
    record {
      beyond = c.beyond;
      reached = omega arith;
      split = rw one_more (ap (λ l. suc h ∷ l) c.split);
      flagged = c.flagged;
      holed = c.holed;
    }

stop :
    {h t : ℕ} {gap : Bool} {ns : List ℕ} (s : ℕ) (beyond : List ℕ)
    → t ≡ h
    → gap ≡ true
    → s ∷ beyond ≡ ns
    → All (λ u. suc h < u) (s ∷ beyond)
    → IsContinuous h t gap ns
stop {h} {t} s beyond th flag these far = record {
  beyond = s ∷ beyond;
  reached = omega arith;
  split = let none_reached : t - h ≡ 0 = omega arith in rw none_reached (sym these);
  flagged = flag;
  holed = subst (λ u. All (λ v. suc u < v) (s ∷ beyond)) (sym th) far;
}

new_above : (head : ℕ) (es : List Event) → All (λ s. head < s) (seqs (new_events head es))
new_above head [] = tt
new_above head (e ∷ es) = elim (Option-cases (seq_of e)) [
  | inl none_seq ↦ ground (arith, none_seq, new_above head es)
  | inr (s, some_seq) ↦ ground (arith, some_seq, new_above head es)
]

module _ (to_json : Event → String) where
  -- One event beyond a hole, or none: the flag stays set.
  flush_one_holed :
      (p : AttachPrelude) (e : Event) (es : List Event)
      → p.gap_detected ≡ true
      → All (λ s. suc p.contiguous_through < s) (seqs (new_events p.head_seq (e ∷ es)))
      → ((flush_one to_json p e).gap_detected ≡ true)
        × ((flush_one to_json p e).contiguous_through ≡ p.contiguous_through)
        × ((flush_one to_json p e).head_seq ≡ p.head_seq)
        × All (λ s. suc p.contiguous_through < s) (seqs (new_events p.head_seq es))
  unfolding flush_one
  flush_one_holed p e es g a = elim (Option-cases (seq_of e)) [
    | inl none_seq ↦ ground (arith, none_seq, g, a)
    | inr (s, some_seq) ↦ ground (arith, some_seq, g, a)
  ]

  -- Beyond a hole nothing is contiguous any more.
  flush_holed :
      (p : AttachPrelude) (es : List Event)
      → p.gap_detected ≡ true
      → All (λ s. suc p.contiguous_through < s) (seqs (new_events p.head_seq es))
      → ((flush to_json p es).gap_detected ≡ true)
        × ((flush to_json p es).contiguous_through ≡ p.contiguous_through)
  unfolding flush
  flush_holed p [] g a = (g, refl)
  flush_holed p (e ∷ es) g a =
      let (g', c', h', a') = flush_one_holed p e es g a in
      let (flag, through) = flush_holed (flush_one to_json p e) es g' (rw (c', h') a') in
      (flag, through ∙ c')

  -- One event before any hole: the numbers of the rest, and what the event does.
  flush_one_next :
      (p : AttachPrelude) (e : Event) (es : List Event)
      → All (λ s. p.contiguous_through < s) (seqs (new_events p.head_seq (e ∷ es)))
      → IsRising (seqs (new_events p.head_seq (e ∷ es)))
      → ((flush_one to_json p e).head_seq ≡ p.head_seq)
        × ((((flush_one to_json p e).contiguous_through ≡ p.contiguous_through)
              × ((flush_one to_json p e).gap_detected ≡ p.gap_detected)
              × (seqs (new_events p.head_seq (e ∷ es)) ≡ seqs (new_events p.head_seq es)))
            ⊎ (((flush_one to_json p e).contiguous_through ≡ suc p.contiguous_through)
                × ((flush_one to_json p e).gap_detected ≡ p.gap_detected)
                × (seqs (new_events p.head_seq (e ∷ es))
                    ≡ suc p.contiguous_through ∷ seqs (new_events p.head_seq es)))
            ⊎ (((flush_one to_json p e).contiguous_through ≡ p.contiguous_through)
                × ((flush_one to_json p e).gap_detected ≡ true)
                × ((s : ℕ) × (suc p.contiguous_through < s)
                    × (seqs (new_events p.head_seq (e ∷ es))
                        ≡ s ∷ seqs (new_events p.head_seq es)))))
  unfolding flush_one
  flush_one_next p e es a r = elim (Option-cases (seq_of e)) [
    | inl none_seq ↦ (ground (arith, none_seq), ground (arith, none_seq))
    | inr (s, some_seq) ↦ elim (Bool-cases (leb s p.head_seq)) [
      | inl old ↦ (ground (arith, some_seq, old), inl (ground (arith, some_seq, old)))
      | inr new ↦
          let first : p.contiguous_through < s = ground (arith, some_seq, new, a) in
          let these : seqs (new_events p.head_seq (e ∷ es)) ≡ s ∷ seqs (new_events p.head_seq es) =
            ground (arith, some_seq, new) in
          (
            ground (arith, some_seq, new),
            inr (elim (Bool-cases (s == (p.contiguous_through + 1))) [
              | inl next ↦
                  let s_next : s ≡ suc p.contiguous_through = ground (arith, next) in
                  inl (ground (arith, some_seq, new, next, these, s_next))
              | inr skip ↦
                  let far : suc p.contiguous_through < s = ground (arith, skip, first) in
                  inr (
                    ground (arith, some_seq, new, skip, far),
                    ground (arith, some_seq, new, skip, far),
                    (s, far, these),
                  )
            ]),
          )
    ]
  ]

  flush-IsContinuous :
      (p : AttachPrelude) (es : List Event)
      → p.gap_detected ≡ false
      → All (λ s. p.contiguous_through < s) (seqs (new_events p.head_seq es))
      → IsRising (seqs (new_events p.head_seq es))
      → IsContinuous p.contiguous_through
          (flush to_json p es).contiguous_through
          (flush to_json p es).gap_detected
          (seqs (new_events p.head_seq es))
  unfolding flush
  flush-IsContinuous p [] g a r = record {
    beyond = [];
    reached = omega arith;
    split = let e : p.contiguous_through - p.contiguous_through ≡ 0 = omega arith in rw e;
    flagged = g;
    holed = tt;
  }
  flush-IsContinuous p (e ∷ es) g a r =
      let p' = flush_one to_json p e in
      let numbers = seqs (new_events p.head_seq es) in
      let (head', effect) = flush_one_next p e es a r in
      let heads : seqs (new_events p'.head_seq es) ≡ numbers =
        ap (λ h. seqs (new_events h es)) head' in
      elim effect [
        | inl (c', g', same) ↦
            let above = subst (All (λ s. p.contiguous_through < s)) same a in
            let above' = subst (λ c. All (λ s. c < s) numbers) (sym c') above in
            transfer c' (heads ∙ sym same) (
              flush-IsContinuous p' es (g' ∙ g)
                (subst (All (λ s. p'.contiguous_through < s)) (sym heads) above')
                (subst IsRising (sym heads) (subst IsRising same r)))
        | inr (inl (c', g', next)) ↦
            let (above, rising) = subst IsRising next r in
            let above' = subst (λ c. All (λ s. c < s) numbers) (sym c') above in
            transfer refl (sym next) (
              advance (
                transfer c' heads (
                  flush-IsContinuous p' es (g' ∙ g)
                    (subst (All (λ s. p'.contiguous_through < s)) (sym heads) above')
                    (subst IsRising (sym heads) rising))))
        | inr (inr (c', g', (s, far, skip))) ↦
            let (above, rising) = subst IsRising skip r in
            let far_all =
              All-imp (λ t. s < t) (λ t. suc p.contiguous_through < t) (λ t h. omega arith) _
                above in
            let far_all' = subst (λ c. All (λ t. suc c < t) numbers) (sym c') far_all in
            let (flag, through) =
              flush_holed p' es g'
                (subst (All (λ t. suc p'.contiguous_through < t)) (sym heads) far_all') in
            stop s numbers (through ∙ c') flag (sym skip) (far, far_all)
      ]

-- Whatever the subscription has buffered while the replay was read, if its numbers are rising: of
-- the durable events that the replay did not hold, those up to `contiguous_through` are all in the
-- buffer, without a hole; and a gap is reported exactly if the buffer holds others, which all lie
-- beyond a hole.
pub build_attach_prelude-IsContinuous :
    (to_json : Event → String) (durable : List Event) (head : ℕ) (partial : Option String)
    (buffered : List Event)
    → IsRising (seqs (new_events head buffered))
    → IsContinuous head
        (build_attach_prelude to_json durable head partial buffered).contiguous_through
        (build_attach_prelude to_json durable head partial buffered).gap_detected
        (seqs (new_events head buffered))
unfolding build_attach_prelude
build_attach_prelude-IsContinuous to_json durable head partial buffered rising =
    flush-IsContinuous to_json _ buffered refl (new_above head buffered) rising
