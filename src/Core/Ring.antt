-- ===== src/Core/Ring.antt =====
-- The subscriber rings and the bus of crates/kn9t-core/src/bus.rs. The mutex round a ring makes
-- each operation one step on its state. Rings live in a heap: an `Arc` or a `Weak` is the index of
-- a cell, and a ring whose subscription is gone is an empty cell, which `upgrade` reports.
pub mod Window
pub mod Broadcast
use kn9t.Prelude.{
  ℕ, zero, suc, Bool, true, false, Option, none, some, List, [], ◌∷◌, ◌++◌, length, ◌==◌, max,
  if◌then◌else◌,
}
use kn9t.Core.Event.{Event, LiveEvent, to_observable_event}

-- `Ring` and its `RingState`; the front of the deque is the head of the list.
pub record Ring : Type 0 where
  pub buf : List Event
  pub closed : Bool
  pub capacity : ℕ

unfoldable pub pop_front : List Event → List Event
pop_front [] = []
pop_front (e ∷ es) = es

unfoldable pub push : Ring → Event → Ring
unfolding pop_front
push r e =
    let kept = if length r.buf == r.capacity then pop_front r.buf else r.buf in
    record r { buf = kept ++ e ∷ [] }

unfoldable pub close : Ring → Ring
close r = record r { closed = true }

unfoldable pub try_recv : Ring → Option Event × Ring
try_recv r = elim r.buf [ [] ↦ (none, r) | e ∷ es ↦ (some e, record r { buf = es }) ]

-- What a receiver finds when it holds the lock: an event, the end of the bus, or it has to wait.
pub data Recv : Type 0 where
  received : Event → Ring → Recv
  ended : Recv
  waiting : Recv

unfoldable pub recv : Ring → Recv
recv r = elim r.buf [
  | [] ↦ if r.closed then ended else waiting
  | e ∷ es ↦ received e (record r { buf = es })
]

-- `recv_timeout`: each wake-up is the ring as the receiver finds it and whether the wait had timed
-- out. A wait that timed out returns `None` without another look. `waiting` is left when the
-- wake-ups are used up.
unfoldable pub recv_timeout : Ring → List (Ring × Bool) → Recv
unfolding recv
recv_timeout r [] = recv r
recv_timeout r ((r', timed_out) ∷ wakes) =
    let again = recv_timeout r' wakes in
    elim (recv r) [
      | received e rest ↦ received e rest
      | ended ↦ ended
      | waiting ↦ if timed_out then ended else again
    ]

-- The rings that are alive.
abbrev pub Rings : Type 0
Rings = List (Option Ring)

abbrev pub upgrade : Rings → ℕ → Option Ring
upgrade [] i = none
upgrade (r ∷ rs) zero = r
upgrade (r ∷ rs) (suc i) = upgrade rs i

abbrev pub set : Rings → ℕ → Option Ring → Rings
set [] i r = []
set (q ∷ rs) zero r = r ∷ rs
set (q ∷ rs) (suc i) r = q ∷ set rs i r

pub record Bus : Type 0 where
  pub subs : List ℕ
  pub rings : Rings

unfoldable pub new_bus : Bus
new_bus = record { subs = []; rings = [] }

-- A capacity of 0 is raised to 1. The subscription is the new cell's index.
unfoldable pub subscribe : Bus → ℕ → Bus × ℕ
subscribe b capacity =
    let ring : Ring = record { buf = []; closed = false; capacity = max capacity 1 } in
    let id = length b.rings in
    (record { subs = b.subs ++ id ∷ []; rings = b.rings ++ some ring ∷ [] }, id)

-- Dropping a subscription frees its ring; the bus keeps the weak reference until it publishes.
unfoldable pub drop_subscription : Bus → ℕ → Bus
drop_subscription b id = record b { rings = set b.rings id none }

-- The subscriber stays listed.
unfoldable pub retained : ℕ → Bus → Bus
retained id b = record b { subs = id ∷ b.subs }

-- The closure of `retain`, over the subscribers in order.
unfoldable pub deliver : List ℕ → Rings → Event → Bus
unfolding push retained
deliver [] rings e = record { subs = []; rings = rings }
deliver (id ∷ ids) rings e = elim (upgrade rings id) [
  | some ring ↦ retained id (deliver ids (set rings id (some (push ring e))) e)
  | none ↦ deliver ids rings e
]

unfoldable pub publish : Bus → Event → Bus
unfolding deliver
publish b e = deliver b.subs b.rings e

unfoldable pub emit : Bus → LiveEvent → Bus
unfolding publish
emit b l = elim (to_observable_event l) [ some e ↦ publish b e | none ↦ b ]

-- `Drop for Bus`: every ring that is alive is closed.
unfoldable pub close_all : List ℕ → Rings → Rings
unfolding close
close_all [] rings = rings
close_all (id ∷ ids) rings = elim (upgrade rings id) [
  | some ring ↦ close_all ids (set rings id (some (close ring)))
  | none ↦ close_all ids rings
]

unfoldable pub drop_bus : Bus → Rings
unfolding close_all
drop_bus b = close_all b.subs b.rings
