-- ===== src/Tests/PlanTests.antt =====
-- The repair of orphaned calls and the span to compact, on a transcript that a killed process left.
use kn9t.Prelude.{ℕ, ◌≡◌, refl, true, false, some, List, [], ◌∷◌, arith}
use kn9t.Core.Message.{Role, Content, text, tool_call, tool_result, nil, Message}
use kn9t.Store.Plan.{has_orphan_tool_call, compact_span, CompactSpan}
use kn9t.Store.Plan.Orphans.{Row, messages_of}
use kn9t.Store.Plan.Compaction.{IsSpan, compact_span-IsSpan}

abbrev said : Role → List Content → Message
said role content = record { id = "m"; role = role; content = content; silent = false }

abbrev ask : Message
ask = said Role.user (text "go" ∷ [])

abbrev call : Message
call = said Role.assistant (tool_call "a" "bash" "{}" ∷ tool_call "b" "bash" "{}" ∷ [])

abbrev answer : Message
answer = said Role.tool (tool_result "a" nil false ∷ [])

abbrev both : Message
both = said Role.tool (tool_result "a" nil false ∷ tool_result "b" nil false ∷ [])

abbrev killed : List Row
killed = (1, ask) ∷ (2, call) ∷ (4, answer) ∷ []

abbrev finished : List Message
finished = ask ∷ call ∷ both ∷ ask ∷ []

killed_has_orphan : has_orphan_tool_call (messages_of killed) ≡ true
unfolding has_orphan_tool_call
killed_has_orphan = refl

-- The middle of four messages would split the calls from their results, so the cut moves up.
compact_span-IsSpan_example :
    (cut : ℕ) × (span : CompactSpan) × (compact_span (1 ∷ 2 ∷ 3 ∷ 5 ∷ []) finished ≡ some span)
    × IsSpan (1 ∷ 2 ∷ 3 ∷ 5 ∷ []) finished cut span
unfolding has_orphan_tool_call
compact_span-IsSpan_example =
    compact_span-IsSpan (1 ∷ 2 ∷ 3 ∷ 5 ∷ []) finished refl (omega arith) (omega arith) refl

cut_moves_up :
    compact_span (1 ∷ 2 ∷ 3 ∷ 5 ∷ []) finished
    ≡ some (record { replaced = record { start = 1; end = 3 }; messages = ask ∷ call ∷ both ∷ [] })
unfolding compact_span
cut_moves_up = refl
