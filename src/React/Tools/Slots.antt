-- ===== src/React/Tools/Slots.antt =====
-- What one call of a batch is answered, whichever way it is run (crates/kn9t-react/src/exec.rs), and
-- the slots of `run_tool_batch` after each of its passes.
use kn9t.Prelude.{
  ℕ, ◌+◌, ◌<◌, Bool, true, false, Option, none, some, List, [], ◌∷◌, ◌++◌, map, ◌≡◌, refl, arith,
  any-append, ◌==◌,
}
use kn9t.Core.Message.{Content}
use kn9t.React.Tools.{ToolCall, Tool, Host, Schedule, authorize, execute_one, launch, collected}
use kn9t.React.Tools.Dispatch.{Handle, is_launched, handles_of}

abbrev pub is_started : {Value : Type 0} → Option (Tool Value × Value) → Bool
is_started none = false
is_started (some p) = true

module _ {Value : Type 0} (h : Host Value) (s : Schedule) where
  -- By what is started on a thread for the call.
  abbrev pub answer_by : Option (Tool Value × Value) → ℕ → ToolCall → Content
  answer_by none i call = execute_one h call (authorize h call) (s.cancelled_at_call i)
  answer_by (some (tool, args)) i call = collected h (s.worker i) call tool args

  -- The result that the call at place `i` is owed.
  abbrev pub answer : ℕ → ToolCall → Content
  answer i call = answer_by (launch h s i call (authorize h call)) i call

  abbrev pub answer_all : ℕ → List ToolCall → List Content
  answer_all i [] = []
  answer_all i (c ∷ cs) = answer i c ∷ answer_all (i + 1) cs

  -- The slot of a call after the sequential pass.
  abbrev pub slot_by : Option (Tool Value × Value) → ℕ → ToolCall → Option Content
  slot_by none i call = some (execute_one h call (authorize h call) (s.cancelled_at_call i))
  slot_by (some p) i call = none

  abbrev pub slots : ℕ → List ToolCall → List (Option Content)
  slots i [] = []
  slots i (c ∷ cs) = slot_by (launch h s i c (authorize h c)) i c ∷ slots (i + 1) cs

  -- No handle bears a place before the first.
  pub is_launched-handles_of :
      (k : ℕ) (cs : List ToolCall) (j : ℕ)
      → j < k
      → is_launched (handles_of h s k cs (map (authorize h) cs)) j ≡ false
  unfolding is_launched handles_of
  is_launched-handles_of k [] j lt = refl
  is_launched-handles_of k (c ∷ cs) j lt =
      ground (arith, is_launched-handles_of (k + 1) cs j (omega arith))

  -- Behind handles of earlier places, the call at place `i` is launched exactly when it was started.
  pub is_launched-append :
      (before : List (Handle Value)) (i : ℕ) (c : ToolCall) (cs : List ToolCall)
      → is_launched before i ≡ false
      → is_launched (before ++ handles_of h s i (c ∷ cs) (map (authorize h) (c ∷ cs))) i
        ≡ is_started (launch h s i c (authorize h c))
  unfolding is_launched handles_of
  is_launched-append before i c cs e = ground (
    arith,
    e,
    any-append (λ (t : Handle Value). t.index == i) before
        (handles_of h s i (c ∷ cs) (map (authorize h) (c ∷ cs))),
    is_launched-handles_of (i + 1) cs i (omega arith),
  )
