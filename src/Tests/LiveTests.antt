-- ===== src/Tests/LiveTests.antt =====
-- Turns that start, are displaced and end, and what is salvaged of a call.
use kn9t.Prelude.{inl, ◌≡◌, refl, false, some, List, [], ◌∷◌, arith}
use kn9t.Core.Event.{LiveEvent}
use kn9t.Store.Live.{Scratch, LiveToolCall, find_call, get_live_tool_progress, syntax_error}
use kn9t.Store.Live.Tail.{IsTailOf}
use kn9t.Store.Live.Salvage.{salvage_all, output_of, salvage_all-IsTailOf}
use kn9t.Server.Turns.{
  ServerState, register, drop_slot, abort_turn, is_turn_running, running_turn_id,
  emit_turn_finishing,
}
use kn9t.Server.Turns.Live.{
  World, Reach, here, next, started, dropped, started_up, Reach-not_wedged,
}
use kn9t.Server.Turns.Successor.{first_turn, second_turn, both_registered, displaced_turn_cases}

abbrev quiet : Scratch
quiet = record { live_messages = []; live_tool_calls = [] }

abbrev written : List LiveEvent
written =
    LiveEvent.tool_progress "c" "one "
    ∷ LiveEvent.tool_progress "d" "lost"
    ∷ LiveEvent.tool_progress "c" "two"
    ∷ []

salvage_all-IsTailOf_example :
    (s' : Scratch) × (row : LiveToolCall) × (salvage_all quiet "s"
        (LiveEvent.tool_started "c" "bash" ∷ written)
      ≡ some s')
    × (find_call s'.live_tool_calls "s" "c" ≡ some row)
    × IsTailOf (output_of "c" "" written) row.progress row.truncated
    × (get_live_tool_progress s' "s" "c" ≡ inl syntax_error)
salvage_all-IsTailOf_example = salvage_all-IsTailOf quiet "s" "c" "bash" written

all_written : output_of "c" "" written ≡ "one two"
all_written = refl

abbrev begun : World
begun = started_up 60 0

abbrev one_turn : World
one_turn = record begun {
  state = (register begun.state "s" 1).1;
  slots = (register begun.state "s" 1).0 ∷ [];
}

abbrev over : World
over = record one_turn {
  state = drop_slot one_turn.state (register begun.state "s" 1).0 5;
  slots = [];
}

over-reached : Reach begun over
over-reached =
    next (next here (started begun "s" 1))
      (dropped one_turn [] (register begun.state "s" 1).0 [] 5 refl)

Reach-not_wedged_example : is_turn_running over.state "s" ≡ false
Reach-not_wedged_example = Reach-not_wedged 60 0 "s" over-reached refl

abbrev server : ServerState
server = begun.state

displaced_turn_cases_example :
    let both = both_registered server "s" 1 2 in
    let first = first_turn server "s" 1 2 in
    (running_turn_id (drop_slot both first 3) "s" ≡ some (second_turn server "s" 1 2).id)
    × (abort_turn both "s" (some first.id) ≡ both)
    × (is_turn_running (emit_turn_finishing both "s") "s" ≡ false)
displaced_turn_cases_example = displaced_turn_cases server "s" 1 2 3 (omega arith)
