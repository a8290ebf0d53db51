-- ===== src/Tests/CoreTests.antt =====
-- Rings, the bus, cache marks, stamps and costs.
use kn9t.Prelude.{
  ℕ, ◌≤◌, ◌<◌, ◌≡◌, refl, false, none, some, List, [], ◌∷◌, take, arith, pos, ◌*◌, ◌+◌,
}
use kn9t.Core.Message.{Role, Message}
use kn9t.Core.Model.{Tokens, explicit}
use kn9t.Core.Cost.{cost_micros}
use kn9t.Core.Cost.Bounds.{exact_cost, price_of, IsRealistic, cost_micros-floor}
use kn9t.Core.Event.{Event}
use kn9t.Core.Cache.{breakpoints}
use kn9t.Core.Cache.Bounds.{survivors, breakpoints-explicit}
use kn9t.Core.Ring
use kn9t.Core.Ring.{Ring, Bus, upgrade, publish, subscribe, drop_subscription}
use kn9t.Core.Ring.Window.{push_all, newest, recv_all, recv_all-push_all}
use kn9t.Core.Ring.Broadcast
use kn9t.Core.Ring.Broadcast.{mem, pushed, publish_exact}

abbrev small : Ring
small = record { buf = []; closed = false; capacity = 2 }

abbrev three : List Event
three = Event.turn_started 1 ∷ Event.turn_started 2 ∷ Event.turn_started 3 ∷ []

recv_all-push_all_example : recv_all 5 (push_all small three) ≡ newest 2 three
recv_all-push_all_example = recv_all-push_all small three 5 (omega arith) refl (omega arith)

-- Cell 1 is gone, and cell 2 never subscribed.
abbrev bus : Bus
bus = record { subs = 0 ∷ 1 ∷ []; rings = some small ∷ none ∷ some small ∷ [] }

bus-IsValid : Broadcast.IsValid bus
bus-IsValid = record { distinct = (refl, (refl, tt)); in_heap = omega arith }

publish_exact_example :
    (upgrade (publish bus (Event.turn_started 7)).rings 0
      ≡ some (Ring.push small (Event.turn_started 7)))
    × ((publish bus (Event.turn_started 7)).subs ≡ 0 ∷ [])
publish_exact_example = publish_exact bus (Event.turn_started 7) 0 bus-IsValid

abbrev by : Role → Message
by role = record { id = "m"; role = role; content = []; silent = false }

abbrev talk : List Message
talk = by Role.user ∷ by Role.assistant ∷ by Role.tool ∷ []

breakpoints-explicit_example : breakpoints talk (explicit 2 1024) ≡ take 2 (survivors talk)
breakpoints-explicit_example = breakpoints-explicit talk 2 1024 (omega arith)

abbrev counted : Tokens
counted = record {
  input = 1_000;
  output = 500;
  cache_read = 20_000;
  cache_write = 0;
  reasoning = 0;
}

counted-IsRealistic : IsRealistic counted 3_000_000 15_000_000 300_000 3_750_000
counted-IsRealistic = omega arith

cost_micros-floor_example :
    (q : ℕ) × (cost_micros counted (price_of 3_000_000 15_000_000 300_000 3_750_000) ≡ pos q)
    × (q * 1_000_000 ≤ exact_cost counted 3_000_000 15_000_000 300_000 3_750_000)
    × (exact_cost counted 3_000_000 15_000_000 300_000 3_750_000 < q * 1_000_000 + 1_000_000)
cost_micros-floor_example =
    cost_micros-floor counted 3_000_000 15_000_000 300_000 3_750_000 counted-IsRealistic
