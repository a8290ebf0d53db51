-- ===== src/Tests/TuiTests.antt =====
-- An editor with two recorded states, one of them undone.
use kn9t.Prelude.{ℕ, ◌≡◌, refl, true, some, [], ◌∷◌}
use kn9t.Tui.InputHistory.{InputSnapshot, InputHistory, undo, redo, break_coalesce}
use kn9t.Tui.InputHistory.RoundTrip.{redo-undo}

abbrev typed : ℕ → InputSnapshot
typed col = record { text = "hello"; cursor_row = 0; cursor_col = col }

abbrev edited : InputHistory
edited = record {
  undo_stack = typed 1 ∷ [];
  redo_stack = typed 3 ∷ [];
  last_snapshot_time = some 5;
  coalescing = true;
}

has_undo : (undo edited (typed 2)).0 ≡ some (typed 1)
unfolding undo
has_undo = refl

has_redo : (redo edited (typed 2)).0 ≡ some (typed 3)
unfolding redo
has_redo = refl

redo-undo_example :
    redo (undo edited (typed 2)).1 (typed 1) ≡ (some (typed 2), break_coalesce edited)
redo-undo_example = redo-undo edited (typed 2) (typed 1) has_undo
