-- ===== src/Core/Cache/Bounds.antt =====
-- What `breakpoints` promises: how many marks, where they stand, and that none repeats.
use kn9t.Prelude.{
  ℕ, zero, suc, ◌<◌, ◌≡◌, refl, true, false, inl, inr, none, some, List, [], ◌∷◌, ◌++◌, length,
  length-append, take, take-all, take-append_exact, ◌||◌, append-nil, append_assoc, sym, Option,
  Option-cases, arith, All, All-append, if◌then◌else◌,
}
use kn9t.Core.Message.{Message}
use kn9t.Core.Model.{CacheMode, explicit, automatic}
use kn9t.Core.Cache.{
  Cache, system, after_message, last_user, checked_sub, push_idx, candidates, contains, cache_eq,
  select, breakpoints,
}

-- The mark stands at the system prompt or after one of the `n` messages.
abbrev pub InRange : ℕ → Cache → Type 0
InRange n system = Unit
InRange n (after_message idx) = idx < n

-- Of a list of candidates, those that neither `seen` nor an earlier one repeats.
abbrev pub fresh : List Cache → List Cache → List Cache
fresh seen [] = []
fresh seen (c ∷ cs) =
    let skip = fresh seen cs in
    let more = c ∷ fresh (seen ++ c ∷ []) cs in if contains c seen then skip else more

abbrev pub survivors : List Message → List Cache
survivors ms = fresh [] (candidates ms)

abbrev pub IsDistinct : List Cache → Type 0
IsDistinct [] = Unit
IsDistinct (c ∷ cs) = (contains c cs ≡ false) × IsDistinct cs

last_user-lt : (ms : List Message) (i : ℕ) → last_user ms ≡ some i → i < length ms
unfolding last_user
last_user-lt [] i h = cc
last_user-lt (m ∷ ms) i h = elim (Option-cases (last_user ms)) [
  | inl none_later ↦ ground (arith, none_later)
  | inr (j, later) ↦ ground (arith, later, last_user-lt ms j later)
]

push_idx-InRange :
    (n : ℕ) (o : Option ℕ) (cs : List Cache)
    → ((i : ℕ) → o ≡ some i → i < n)
    → All (InRange n) cs
    → All (InRange n) (push_idx o cs)
unfolding push_idx
push_idx-InRange n none cs h hc = hc
push_idx-InRange n (some i) cs h hc = (h i refl, hc)

checked_sub-lt : (n k i : ℕ) → 0 < k → checked_sub n k ≡ some i → i < n
unfolding checked_sub
checked_sub-lt n k i p h = ground arith

candidates-InRange : (ms : List Message) → All (InRange (length ms)) (candidates ms)
unfolding candidates
candidates-InRange ms =
    let n = length ms in
    (
      tt,
      push_idx-InRange n (last_user ms) _ (last_user-lt ms) (
          push_idx-InRange n (checked_sub n 2) _ (λ i. checked_sub-lt n 2 i (omega arith))
            (push_idx-InRange n (checked_sub n 1) [] (λ i. checked_sub-lt n 1 i (omega arith)) tt)),
    )

select-InRange :
    (n max : ℕ) (out cs : List Cache)
    → All (InRange n) out
    → All (InRange n) cs
    → All (InRange n) (select max out cs)
unfolding select
select-InRange n max out [] ho hc = ho
select-InRange n max out (c ∷ cs) ho hc =
    let ho' = All-append (InRange n) out (c ∷ []) ho (hc.0, tt) in
    ground (
      arith,
      select-InRange n max out cs ho hc.1,
      select-InRange n max (out ++ c ∷ []) cs ho' hc.1,
      ho',
    )

-- Below the limit, the loop returns the first `max` of what it holds and what is still new.
select-eq-take :
    (max : ℕ) (out cs : List Cache)
    → length out < max
    → select max out cs ≡ take max (out ++ fresh out cs)
unfolding select
select-eq-take max out [] h = rw append-nil (sym (take-all max out (omega arith)))
select-eq-take max out (c ∷ cs) h =
    let out' = out ++ c ∷ [] in
    let rest = fresh out' cs in
    let here : out ++ c ∷ rest ≡ out' ++ rest = sym (append_assoc out (c ∷ []) rest) in
    ground (
      arith,
      here,
      length-append out (c ∷ []),
      take-append_exact max out' rest,
      select-eq-take max out cs h,
      select-eq-take max out' cs,
    )

-- At the limit 0 the test for a full list never holds.
select_zero : (out cs : List Cache) → select 0 out cs ≡ out ++ fresh out cs
unfolding select
select_zero out [] = sym (append-nil out)
select_zero out (c ∷ cs) =
    let out' = out ++ c ∷ [] in
    ground (
      arith,
      append_assoc out (c ∷ []) (fresh out' cs),
      length-append out (c ∷ []),
      select_zero out cs,
      select_zero out' cs,
    )

eq_of_cache_eq : (c d : Cache) → cache_eq c d ≡ true → c ≡ d
unfolding cache_eq
eq_of_cache_eq c d h = ground arith

cache_eq_refl : (c : Cache) → cache_eq c c ≡ true
unfolding cache_eq
cache_eq_refl c = ground arith

contains-append :
    (c : Cache) (xs ys : List Cache) → contains c (xs ++ ys) ≡ (contains c xs || contains c ys)
unfolding contains
contains-append c [] ys = refl
contains-append c (x ∷ xs) ys = ground (arith, contains-append c xs ys)

fresh_avoids :
    (c : Cache) (seen cs : List Cache) → contains c seen ≡ true → contains c (fresh seen cs) ≡ false
unfolding contains
fresh_avoids c seen [] h = refl
fresh_avoids c seen (d ∷ cs) h = ground (
  arith,
  fresh_avoids c seen cs h,
  fresh_avoids c (seen ++ d ∷ []) cs,
  contains-append c seen (d ∷ []),
  eq_of_cache_eq d c,
)

fresh-IsDistinct : (seen cs : List Cache) → IsDistinct (fresh seen cs)
unfolding contains
fresh-IsDistinct seen [] = tt
fresh-IsDistinct seen (d ∷ cs) = ground (
  arith,
  fresh-IsDistinct seen cs,
  fresh-IsDistinct (seen ++ d ∷ []) cs,
  fresh_avoids d (seen ++ d ∷ []) cs,
  contains-append d seen (d ∷ []),
  cache_eq_refl d,
)

contains-take :
    (c : Cache) (n : ℕ) (cs : List Cache) → contains c cs ≡ false → contains c (take n cs) ≡ false
unfolding contains
contains-take c zero cs h = refl
contains-take c (suc n) [] h = refl
contains-take c (suc n) (d ∷ cs) h = ground (arith, contains-take c n cs)

take-IsDistinct : (n : ℕ) (cs : List Cache) → IsDistinct cs → IsDistinct (take n cs)
take-IsDistinct zero cs h = tt
take-IsDistinct (suc n) [] h = tt
take-IsDistinct (suc n) (d ∷ cs) h = (contains-take d n cs h.0, take-IsDistinct n cs h.1)

-- With an explicit limit of at least 1, the marks are the first `max` candidates, repeats dropped,
-- in priority order.
pub breakpoints-explicit :
    (ms : List Message) (max min_tokens : ℕ)
    → 0 < max
    → breakpoints ms (explicit max min_tokens) ≡ take max (survivors ms)
unfolding breakpoints
breakpoints-explicit ms max min_tokens h = select-eq-take max [] (candidates ms) h

survivors_room :
    (n : ℕ) (o : Option ℕ)
    → 0 < n
    → 0
      < length (
          fresh
            (system ∷ [])
            (push_idx o (push_idx (checked_sub n 2) (push_idx (checked_sub n 1) []))))
unfolding push_idx checked_sub contains cache_eq
survivors_room n (some i) h = omega arith
survivors_room n none h = ground arith

-- Of a transcript that is not empty, an explicit limit of 0 is no limit: every candidate is marked,
-- repeats dropped, which is more than one mark.
pub breakpoints-zero :
    (ms : List Message) (min_tokens : ℕ)
    → 0 < length ms
    → (breakpoints ms (explicit 0 min_tokens) ≡ survivors ms) × (1 < length (survivors ms))
unfolding breakpoints
breakpoints-zero ms min_tokens h =
    (select_zero [] (candidates ms), omega (arith, survivors_room (length ms) (last_user ms) h))

select-IsDistinct : (max : ℕ) (cs : List Cache) → IsDistinct (select max [] cs)
select-IsDistinct zero cs = rw select_zero (fresh-IsDistinct [] cs)
select-IsDistinct (suc n) cs =
    rw (select-eq-take (suc n) [] cs (omega arith))
      (take-IsDistinct (suc n) (fresh [] cs) (fresh-IsDistinct [] cs))

-- In every mode each mark stands at the system prompt or after a message that is there, and no
-- mark repeats.
pub breakpoints_valid :
    (ms : List Message) (mode : CacheMode)
    → All (InRange (length ms)) (breakpoints ms mode) × IsDistinct (breakpoints ms mode)
unfolding breakpoints
breakpoints_valid ms (explicit max min_tokens) = (
  select-InRange (length ms) max [] (candidates ms) tt (candidates-InRange ms),
  select-IsDistinct max (candidates ms),
)
breakpoints_valid ms automatic = (
  select-InRange (length ms) 4 [] (candidates ms) tt (candidates-InRange ms),
  select-IsDistinct 4 (candidates ms),
)
breakpoints_valid ms CacheMode.none = (tt, tt)
