-- ===== src/Tui/InputHistory.antt =====
-- crates/kn9t-tui/src/input_history.rs: undo and redo. A stack is a list with its newest state first,
-- so that `Vec::push` and `pop` work at the front and `remove(0)` drops the last element. The clock
-- is an argument, in nanoseconds; `duration_since` is 0 if the other instant is later.
pub mod Bounds
pub mod RoundTrip
use kn9t.Prelude.{
  ℕ, zero, suc, ◌+◌, ◌-◌, ◌*◌, String, Bool, true, false, not, ◌&&◌, Option, none, some, List, [],
  ◌∷◌, length, ltb, leb, if◌then◌else◌,
}

abbrev pub max_history : ℕ
max_history = 100

-- 300 ms.
abbrev pub coalesce_window : ℕ
coalesce_window = 300 * 1_000_000

pub record InputSnapshot : Type 0 where
  pub text : String
  pub cursor_row : ℕ
  pub cursor_col : ℕ

pub record InputHistory : Type 0 where
  pub undo_stack : List InputSnapshot
  pub redo_stack : List InputSnapshot
  pub last_snapshot_time : Option ℕ
  pub coalescing : Bool

unfoldable pub new : InputHistory
new = record { undo_stack = []; redo_stack = []; last_snapshot_time = none; coalescing = false }

-- `undo_stack.remove(0)`
unfoldable pub drop_oldest : List InputSnapshot → List InputSnapshot
drop_oldest [] = []
drop_oldest (s ∷ []) = []
drop_oldest (s ∷ t ∷ ts) = s ∷ drop_oldest (t ∷ ts)

unfoldable pub is_recent : Option ℕ → (now : ℕ) → Bool
is_recent none now = false
is_recent (some t) now = ltb (now - t) coalesce_window

unfoldable pub is_empty : List InputSnapshot → Bool
is_empty [] = true
is_empty (s ∷ ss) = false

-- `record`
unfoldable pub record_snapshot : InputHistory → (now : ℕ) → InputSnapshot → InputHistory
unfolding drop_oldest is_recent is_empty
record_snapshot h now snapshot =
    let should_coalesce = h.coalescing && is_recent h.last_snapshot_time now in
    let kept =
      if leb max_history (length h.undo_stack) then drop_oldest h.undo_stack else h.undo_stack in
    record {
      undo_stack =
          if should_coalesce && not (is_empty h.undo_stack) then h.undo_stack else snapshot ∷ kept;
      redo_stack = [];
      last_snapshot_time = some now;
      coalescing = true;
    }

unfoldable pub break_coalesce : InputHistory → InputHistory
break_coalesce h = record h { coalescing = false }

unfoldable pub record_boundary : InputHistory → (now : ℕ) → InputSnapshot → InputHistory
unfolding record_snapshot break_coalesce
record_boundary h now snapshot = break_coalesce (record_snapshot (break_coalesce h) now snapshot)

unfoldable pub undo : InputHistory → (current : InputSnapshot) → Option InputSnapshot × InputHistory
undo h current = elim h.undo_stack [
  | [] ↦ (none, h)
  | prev ∷ rest ↦ (
    some prev,
    record h { undo_stack = rest; redo_stack = current ∷ h.redo_stack; coalescing = false },
  )
]

unfoldable pub redo : InputHistory → (current : InputSnapshot) → Option InputSnapshot × InputHistory
redo h current = elim h.redo_stack [
  | [] ↦ (none, h)
  | next ∷ rest ↦ (
    some next,
    record h { undo_stack = current ∷ h.undo_stack; redo_stack = rest; coalescing = false },
  )
]

unfoldable pub clear : InputHistory → InputHistory
unfolding new
clear h = new
