-- ===== src/Tui/InputHistory/RoundTrip.antt =====
-- Undo and redo take each other back.
use kn9t.Prelude.{ℕ, ◌≡◌, refl, List, [], ◌∷◌, arith, some, ◌⊎◌, inl, inr}
use kn9t.Tui.InputHistory.{InputSnapshot, InputHistory, record_boundary, undo, redo, break_coalesce}

stack_cases :
    (ss : List InputSnapshot)
    → (ss ≡ []) ⊎ ((top : InputSnapshot) × (rest : List InputSnapshot) × (ss ≡ top ∷ rest))
stack_cases [] = inl refl
stack_cases (top ∷ rest) = inr (top, rest, refl)

-- After an undo that gives back a state, a redo from that state gives the current one, and both
-- stacks are as they were before.
pub redo-undo :
    (h : InputHistory) (current prev : InputSnapshot)
    → (undo h current).0 ≡ some prev
    → redo (undo h current).1 prev ≡ (some current, break_coalesce h)
unfolding undo redo break_coalesce
redo-undo h current prev some_prev = elim (stack_cases h.undo_stack) [
  | inl empty ↦ absurd (ground (arith, empty, some_prev))
  | inr (top, rest, e) ↦ ground (arith, e, some_prev)
]

-- The other way round.
pub undo-redo :
    (h : InputHistory) (current next : InputSnapshot)
    → (redo h current).0 ≡ some next
    → undo (redo h current).1 next ≡ (some current, break_coalesce h)
unfolding undo redo break_coalesce
undo-redo h current next some_next = elim (stack_cases h.redo_stack) [
  | inl empty ↦ absurd (ground (arith, empty, some_next))
  | inr (top, rest, e) ↦ ground (arith, e, some_next)
]

-- What was recorded as a boundary comes back by the next undo.
pub undo-record_boundary :
    (h : InputHistory) (now : ℕ) (before after : InputSnapshot)
    → (undo (record_boundary h now before) after).0 ≡ some before
unfolding undo record_boundary
undo-record_boundary h now before after = refl
