-- ===== src/React/Tools/Dispatch.antt =====
-- `run_tool_batch` of crates/kn9t-react/src/exec.rs: the calls that threads run, the sequential pass,
-- the collection of the threads' results and the slots that are still empty.
use kn9t.Prelude.{
  ℕ, ◌+◌, Bool, Option, none, some, List, [], ◌∷◌, map, any, get_elem?, set, ◌==◌, if◌then◌else◌,
}
use kn9t.Prelude.Maybe.{◌>>=◌}
use kn9t.Core.Message.{Content}
use kn9t.React.Tools.{
  ToolCall, CallPlan, Tool, Host, Schedule, synth_error, authorize, execute_one, launch, collected,
}

-- A call that runs on a thread, by its index in the batch.
pub record Handle (Value : Type 0) : Type 0 where
  pub index : ℕ
  pub call : ToolCall
  pub tool : Tool Value
  pub args : Value

unfoldable pub is_launched : {Value : Type 0} → List (Handle Value) → ℕ → Bool
is_launched handles i = any (λ t. t.index == i) handles

-- `r.expect("every slot filled")`
unfoldable pub unwrap_all : List (Option Content) → Option (List Content)
unwrap_all [] = some []
unwrap_all (none ∷ rs) = none
unwrap_all (some r ∷ rs) = do rest ← unwrap_all rs; some (r ∷ rest)

-- A call that is still without a result.
unfoldable pub fill_pass : ℕ → List ToolCall → List (Option Content) → List (Option Content)
unfolding synth_error
fill_pass i [] results = results
fill_pass i (c ∷ cs) results = fill_pass (i + 1) cs (elim (get_elem? results i) [
  | some none ↦ set results i (some (synth_error c.id "aborted by user"))
  | _ ↦ results
])

module _ {Value : Type 0} (h : Host Value) (s : Schedule) where
  unfoldable pub handles_of : ℕ → List ToolCall → List (CallPlan Value) → List (Handle Value)
  unfolding launch
  handles_of i [] plans = []
  handles_of i (c ∷ cs) [] = []
  handles_of i (c ∷ cs) (p ∷ ps) =
      let rest = handles_of (i + 1) cs ps in
      elim (launch h s i c p) [
        | none ↦ rest
        | some (tool, args) ↦ record { index = i; call = c; tool = tool; args = args } ∷ rest
      ]

  -- The calls that no thread runs, one after another.
  unfoldable pub sequential_pass :
      List (Handle Value)
      → ℕ
      → List ToolCall
      → List (CallPlan Value)
      → List (Option Content)
      → List (Option Content)
  unfolding is_launched execute_one
  sequential_pass handles i [] plans results = results
  sequential_pass handles i (c ∷ cs) [] results = results
  sequential_pass handles i (c ∷ cs) (p ∷ ps) results = sequential_pass handles (i + 1) cs ps (
      if is_launched handles i
      then results
      else set results i (some (execute_one h c p (s.cancelled_at_call i))))

  -- The threads' results, in the order of the calls.
  unfoldable pub collect_pass : List (Handle Value) → List (Option Content) → List (Option Content)
  unfolding collected
  collect_pass [] results = results
  collect_pass (t ∷ ts) results =
      collect_pass ts
        (set results t.index (some (collected h (s.worker t.index) t.call t.tool t.args)))

  -- `none` is the panic at an empty slot.
  unfoldable pub run_tool_batch : List ToolCall → Option (List Content)
  unfolding handles_of sequential_pass collect_pass fill_pass unwrap_all
  run_tool_batch calls =
      let plans = map (authorize h) calls in
      let handles = handles_of 0 calls plans in
      let started = sequential_pass handles 0 calls plans (map (λ _. none) calls) in
      unwrap_all (fill_pass 0 calls (collect_pass handles started))
