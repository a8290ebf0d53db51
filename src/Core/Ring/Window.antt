-- ===== src/Core/Ring/Window.antt =====
-- A ring holds the newest events that fit, in the order of their arrival.
use kn9t.Prelude.{
  ℕ, zero, suc, ◌+◌, ◌-◌, ◌≤◌, ◌<◌, ◌≡◌, refl, sym, ◌∙◌, ap, Bool, some, List, [], ◌∷◌, ◌++◌,
  append_assoc, append-nil, length, drop, length-append, length-drop, drop-append, arith, ◌==◌,
  Bool-cases,
}
use kn9t.Prelude.{inl, inr, drop-drop, Option, none}
use kn9t.Core.Event.{Event}
use kn9t.Core.Ring.{Ring, push, pop_front, try_recv}

-- The ring holds no more than its capacity, which is at least 1.
pub record IsValid (r : Ring) : Type 0 where
  pub room : 0 < r.capacity
  pub bounded : length r.buf ≤ r.capacity

abbrev pub push_all : Ring → List Event → Ring
push_all r [] = r
push_all r (e ∷ es) = push_all (push r e) es

-- The last `n` of a list.
abbrev pub newest : ℕ → List Event → List Event
newest n es = drop (length es - n) es

pop_front-eq-drop : (es : List Event) → pop_front es ≡ drop 1 es
unfolding pop_front
pop_front-eq-drop [] = refl
pop_front-eq-drop (e ∷ es) = refl

-- A push keeps the ring valid, and keeps its capacity and whether it is closed.
pub push-IsValid :
    (r : Ring) (e : Event)
    → IsValid r
    → IsValid (push r e) × ((push r e).capacity ≡ r.capacity) × ((push r e).closed ≡ r.closed)
unfolding push
push-IsValid r e v = ground (
  arith,
  pop_front-eq-drop r.buf,
  length-drop 1 r.buf,
  length-append (pop_front r.buf) (e ∷ []),
  length-append r.buf (e ∷ []),
)

push-newest :
    (r : Ring) (e : Event) → IsValid r → (push r e).buf ≡ newest r.capacity (r.buf ++ e ∷ [])
unfolding push
push-newest r e v =
    let all = r.buf ++ e ∷ [] in
    let len : length all ≡ length r.buf + 1 = length-append r.buf (e ∷ []) in
    elim (Bool-cases (length r.buf == r.capacity)) [
      | inl full ↦
          let one : length all - r.capacity ≡ 1 = ground (arith, len) in
          rw (full, one, pop_front-eq-drop) (sym (drop-append 1 r.buf (e ∷ []) (ground arith)))
      | inr spare ↦
          let none_over : length all - r.capacity ≡ 0 = ground (arith, len) in rw (spare, none_over)
    ]

-- Taking the newest `n` of a list before or after more events are added comes to the same.
newest-append : (n : ℕ) (es fs : List Event) → newest n (newest n es ++ fs) ≡ newest n (es ++ fs)
newest-append n es fs =
    let k = length es - n in
    rw (← drop-append k es fs (omega arith), drop-drop)
      (ap (λ i. drop i (es ++ fs)) (omega (arith, length-drop k (es ++ fs), length-append es fs)))

-- After any pushes a valid ring holds the newest events that fit of all that it has held and been
-- given, oldest first, and is still valid with the same capacity.
pub push_all-newest :
    (r : Ring) (es : List Event)
    → IsValid r
    → ((push_all r es).buf ≡ newest r.capacity (r.buf ++ es))
      × IsValid (push_all r es)
      × ((push_all r es).capacity ≡ r.capacity)
push_all-newest r [] v =
    let e : 0 ≡ length (r.buf ++ []) - r.capacity =
      omega (arith, length-append r.buf [], v.bounded) in
    (sym (append-nil r.buf) ∙ ap (λ i. drop i (r.buf ++ [])) e, v, refl)
push_all-newest r (e ∷ es) v =
    let (v', cap, _) = push-IsValid r e v in
    let (window, v'', cap') = push_all-newest (push r e) es v' in
    (
      window
          ∙ rw (cap, push-newest r e v)
              (newest-append r.capacity (r.buf ++ e ∷ []) es
                ∙ ap (newest r.capacity) (append_assoc r.buf (e ∷ []) es)),
      v'',
      cap' ∙ cap,
    )

-- The events that a receiver takes, one `try_recv` after another, and the ring that is left.
abbrev pub take_up : Option Event → List Event → List Event
take_up none rest = []
take_up (some e) rest = e ∷ rest

abbrev pub recv_all : ℕ → Ring → List Event
recv_all zero r = []
recv_all (suc n) r = take_up (try_recv r).0 (recv_all n (try_recv r).1)

recv_all-buf :
    (n : ℕ) (buf : List Event) (closed : Bool) (capacity : ℕ)
    → length buf ≤ n
    → recv_all n (record { buf = buf; closed = closed; capacity = capacity }) ≡ buf
unfolding try_recv
recv_all-buf zero [] closed capacity h = refl
recv_all-buf zero (e ∷ es) closed capacity h = absurd (omega arith)
recv_all-buf (suc n) [] closed capacity h = refl
recv_all-buf (suc n) (e ∷ es) closed capacity h =
    ap (λ t. e ∷ t) (recv_all-buf n es closed capacity (omega arith))

-- The events that a subscriber reads after any pushes to an empty ring are the newest that fit, in
-- the order in which they were pushed, each once.
pub recv_all-push_all :
    (r : Ring) (es : List Event) (n : ℕ)
    → 0 < r.capacity
    → r.buf ≡ []
    → r.capacity ≤ n
    → recv_all n (push_all r es) ≡ newest r.capacity es
recv_all-push_all r es n room empty enough =
    let v : IsValid r = record { room = room; bounded = rw empty (omega arith) } in
    let (window, v', cap) = push_all-newest r es v in
    let s = push_all r es in
    recv_all-buf n s.buf s.closed s.capacity (omega (arith, v'.bounded, cap))
    ∙ window
    ∙ ap (λ b. newest r.capacity (b ++ es)) empty
