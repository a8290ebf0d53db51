-- ===== src/Tui/InputHistory/Bounds.antt =====
-- The history never holds more than its limit.
use kn9t.Prelude.{ℕ, ◌+◌, ◌-◌, ◌≤◌, ◌≡◌, List, [], ◌∷◌, length, arith}
use kn9t.Tui.InputHistory.{
  InputSnapshot, InputHistory, max_history, drop_oldest, record_snapshot, record_boundary,
  break_coalesce, undo, redo, clear,
}

length-drop_oldest : (ss : List InputSnapshot) → length (drop_oldest ss) ≡ length ss - 1
unfolding drop_oldest
length-drop_oldest [] = omega arith
length-drop_oldest (s ∷ []) = omega arith
length-drop_oldest (s ∷ t ∷ ts) = omega (arith, length-drop_oldest (t ∷ ts))

-- What the editor does with its history.
pub data Op : Type 0 where
  op_record op_boundary : (now : ℕ) → InputSnapshot → Op
  op_break op_clear : Op
  op_undo op_redo : (current : InputSnapshot) → Op

unfoldable pub apply : InputHistory → Op → InputHistory
unfolding record_boundary undo redo clear
apply h (op_record now s) = record_snapshot h now s
apply h (op_boundary now s) = record_boundary h now s
apply h op_break = break_coalesce h
apply h op_clear = clear h
apply h (op_undo current) = (undo h current).1
apply h (op_redo current) = (redo h current).1

unfoldable pub apply_all : InputHistory → List Op → InputHistory
unfolding apply
apply_all h [] = h
apply_all h (o ∷ os) = apply_all (apply h o) os

abbrev pub states : InputHistory → ℕ
states h = length h.undo_stack + length h.redo_stack

record_snapshot-bounded :
    (h : InputHistory) (now : ℕ) (s : InputSnapshot)
    → states h ≤ max_history
    → states (record_snapshot h now s) ≤ max_history
unfolding record_snapshot
record_snapshot-bounded h now s low = ground (arith, low, length-drop_oldest h.undo_stack)

apply-bounded :
    (h : InputHistory) (o : Op) → states h ≤ max_history → states (apply h o) ≤ max_history
unfolding apply
apply-bounded h (op_record now s) low = record_snapshot-bounded h now s low
apply-bounded h (op_boundary now s) low = record_snapshot-bounded (break_coalesce h) now s low
apply-bounded h op_break low = low
apply-bounded h op_clear low = omega arith
apply-bounded h (op_undo current) low = ground (arith, low)
apply-bounded h (op_redo current) low = ground (arith, low)

-- Whatever the editor does, undo and redo together hold no more than the limit, although a redo
-- pushes on the undo stack without looking at its length.
pub apply_all_bounded :
    (h : InputHistory) (os : List Op)
    → states h ≤ max_history
    → states (apply_all h os) ≤ max_history
unfolding apply_all
apply_all_bounded h [] low = low
apply_all_bounded h (o ∷ os) low = apply_all_bounded (apply h o) os (apply-bounded h o low)
