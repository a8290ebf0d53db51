-- ===== src/Core/Ring/Broadcast.antt =====
-- What a publish does to the rings: every live subscriber gets the event once, no other ring is
-- touched, and the dead references are pruned.
use kn9t.Prelude.{
  ℕ, zero, suc, ◌+◌, ◌≤◌, ◌<◌, ◌≡◌, refl, ap, Bool, false, inl, inr, Option, none, some, is_some,
  List, [], ◌∷◌, ◌++◌, length, keep, keep-cong, any-append, All-append, max, length-append,
  Option-cases, arith, ◌==◌, All, any, if◌then◌else◌,
}
use kn9t.Core.Event.{Event}
use kn9t.Core.Ring.{
  Ring, Rings, Bus, push, upgrade, set, deliver, publish, subscribe, drop_subscription,
}

abbrev pub mem : ℕ → List ℕ → Bool
mem i ids = any (λ j. j == i) ids

-- No subscriber is listed twice.
abbrev pub IsDistinct : List ℕ → Type 0
IsDistinct [] = Unit
IsDistinct (i ∷ ids) = (mem i ids ≡ false) × IsDistinct ids

-- A ring with the event pushed, if it is there.
abbrev pub pushed : Option Ring → Event → Option Ring
pushed none e = none
pushed (some r) e = some (push r e)

upgrade-set :
    (rs : Rings) (i j : ℕ) (q r : Ring)
    → upgrade rs i ≡ some q
    → upgrade (set rs i (some r)) j ≡ (if i == j then some r else upgrade rs j)
upgrade-set [] i j q r h = cc
upgrade-set (x ∷ rs) zero zero q r h = ground arith
upgrade-set (x ∷ rs) zero (suc j) q r h = ground arith
upgrade-set (x ∷ rs) (suc i) zero q r h = ground arith
upgrade-set (x ∷ rs) (suc i) (suc j) q r h = ground (arith, upgrade-set rs i j q r h)

deliver-rings :
    (ids : List ℕ) (rs : Rings) (e : Event) (j : ℕ)
    → IsDistinct ids
    → upgrade (deliver ids rs e).rings j
      ≡ (if mem j ids then pushed (upgrade rs j) e else upgrade rs j)
unfolding deliver
deliver-rings [] rs e j d = refl
deliver-rings (i ∷ ids) rs e j d = elim (Option-cases (upgrade rs i)) [
  | inl dead ↦ ground (arith, dead, deliver-rings ids rs e j d.1)
  | inr (r, live) ↦
      let rs' = set rs i (some (push r e)) in
      ground (arith, live, deliver-rings ids rs' e j d.1, upgrade-set rs i j r (push r e) live, d.0)
]

deliver-subs :
    (ids : List ℕ) (rs : Rings) (e : Event)
    → (deliver ids rs e).subs ≡ keep (λ i. is_some (upgrade rs i)) ids
unfolding deliver
deliver-subs [] rs e = refl
deliver-subs (i ∷ ids) rs e = elim (Option-cases (upgrade rs i)) [
  | inl dead ↦ ground (arith, dead, deliver-subs ids rs e)
  | inr (r, live) ↦
      let rs' = set rs i (some (push r e)) in
      let same : (j : ℕ) → is_some (upgrade rs' j) ≡ is_some (upgrade rs j) =
        λ j. ground (arith, live, upgrade-set rs i j r (push r e) live) in
      ground (
        arith,
        live,
        deliver-subs ids rs' e,
        keep-cong (λ j. is_some (upgrade rs' j)) (λ j. is_some (upgrade rs j)) ids same,
      )
]

-- Each subscriber is listed once and stands for a cell of the heap.
pub record IsValid (b : Bus) : Type 0 where
  pub distinct : IsDistinct b.subs
  pub in_heap : All (λ i. i < length b.rings) b.subs

-- On a valid bus a publish gives the event, once, to every live ring that is subscribed, leaves
-- every other ring as it is, and keeps exactly the live subscribers, in their order.
pub publish_exact :
    (b : Bus) (e : Event) (j : ℕ)
    → IsValid b
    → (upgrade (publish b e).rings j
        ≡ (if mem j b.subs then pushed (upgrade b.rings j) e else upgrade b.rings j))
      × ((publish b e).subs ≡ keep (λ i. is_some (upgrade b.rings i)) b.subs)
unfolding publish
publish_exact b e j v = (deliver-rings b.subs b.rings e j v.distinct, deliver-subs b.subs b.rings e)

length-set : (rs : Rings) (i : ℕ) (r : Option Ring) → length (set rs i r) ≡ length rs
length-set [] i r = refl
length-set (x ∷ rs) zero r = refl
length-set (x ∷ rs) (suc i) r = ap suc (length-set rs i r)

length-deliver :
    (ids : List ℕ) (rs : Rings) (e : Event) → length (deliver ids rs e).rings ≡ length rs
unfolding deliver
length-deliver [] rs e = refl
length-deliver (i ∷ ids) rs e = elim (Option-cases (upgrade rs i)) [
  | inl dead ↦ ground (arith, dead, length-deliver ids rs e)
  | inr (r, live) ↦
      let rs' = set rs i (some (push r e)) in
      ground (arith, live, length-deliver ids rs' e, length-set rs i (some (push r e)))
]

All-le : (n m : ℕ) (ids : List ℕ) → n ≤ m → All (λ i. i < n) ids → All (λ i. i < m) ids
All-le n m [] h a = tt
All-le n m (i ∷ ids) h a = (omega arith, All-le n m ids h a.1)

mem-keep : (p : ℕ → Bool) (i : ℕ) (ids : List ℕ) → mem i ids ≡ false → mem i (keep p ids) ≡ false
mem-keep p i [] h = refl
mem-keep p i (j ∷ ids) h = ground (arith, mem-keep p i ids)

keep-IsDistinct : (p : ℕ → Bool) (ids : List ℕ) → IsDistinct ids → IsDistinct (keep p ids)
keep-IsDistinct p [] h = tt
keep-IsDistinct p (i ∷ ids) h = ground (arith, mem-keep p i ids h.0, keep-IsDistinct p ids h.1)

All-keep :
    (n : ℕ) (p : ℕ → Bool) (ids : List ℕ) → All (λ i. i < n) ids → All (λ i. i < n) (keep p ids)
All-keep n p [] h = tt
All-keep n p (i ∷ ids) h = ground (arith, All-keep n p ids h.1)

mem_above : (n : ℕ) (ids : List ℕ) → All (λ i. i < n) ids → mem n ids ≡ false
mem_above n [] h = refl
mem_above n (i ∷ ids) h = ground (arith, mem_above n ids h.1)

IsDistinct-snoc :
    (n : ℕ) (ids : List ℕ) → IsDistinct ids → mem n ids ≡ false → IsDistinct (ids ++ n ∷ [])
IsDistinct-snoc n [] d h = (refl, tt)
IsDistinct-snoc n (i ∷ ids) d h =
    ground (arith, IsDistinct-snoc n ids d.1, any-append (λ j. j == i) ids (n ∷ []))

upgrade-append : (rs : Rings) (r : Option Ring) → upgrade (rs ++ r ∷ []) (length rs) ≡ r
upgrade-append [] r = refl
upgrade-append (x ∷ rs) r = upgrade-append rs r

-- Subscribing, publishing and dropping a subscription keep the bus valid, and a new subscription
-- has an empty ring of its own, open, of the capacity asked for but at least 1.
pub steps-IsValid :
    (b : Bus) (capacity : ℕ) (e : Event) (id : ℕ)
    → IsValid b
    → IsValid (publish b e)
      × IsValid (drop_subscription b id)
      × IsValid (subscribe b capacity).0
      × (mem (subscribe b capacity).1 b.subs ≡ false)
      × (upgrade (subscribe b capacity).0.rings (subscribe b capacity).1
          ≡ some (record { buf = []; closed = false; capacity = max capacity 1 }))
unfolding publish drop_subscription subscribe
steps-IsValid b capacity e id v =
    let n = length b.rings in
    let fresh : mem n b.subs ≡ false = mem_above n b.subs v.in_heap in
    let live = λ (i : ℕ). is_some (upgrade b.rings i) in
    (
      record {
        distinct = rw deliver-subs (keep-IsDistinct live b.subs v.distinct);
        in_heap = rw (deliver-subs, length-deliver) (All-keep n live b.subs v.in_heap);
      },
      record { distinct = v.distinct; in_heap = rw length-set v.in_heap },
      record {
        distinct = IsDistinct-snoc n b.subs v.distinct fresh;
        in_heap = rw length-append (
            All-append (λ i. i < n + 1) b.subs (n ∷ [])
              (All-le n (n + 1) b.subs (omega arith) v.in_heap) (omega arith, tt));
      },
      fresh,
      upgrade-append b.rings _,
    )
