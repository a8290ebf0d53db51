-- ===== src/React/Tools/Batch.antt =====
-- `run_tool_batch` of crates/kn9t-react/src/exec.rs against the answer that each call is owed.
use kn9t.Prelude.{
  ℕ, ◌+◌, ◌≤◌, false, Option, none, some, List, [], ◌∷◌, ◌++◌, map, length, set, ◌≡◌, refl, sym, ap,
  ◌∙◌, arith, any-append, length-append, append_assoc, append-nil, set-append, get_elem?-append,
  ◌==◌, if◌then◌else◌,
}
use kn9t.Core.Message.{Content}
use kn9t.React.Tools.{
  ToolCall, CallPlan, Tool, Host, Schedule, authorize, execute_one, launch, synth_error,
}
use kn9t.React.Tools.Dispatch.{
  Handle, is_launched, handles_of, sequential_pass, collect_pass, fill_pass, unwrap_all,
  run_tool_batch,
}
use kn9t.React.Tools.Slots.{
  answer_by, answer, answer_all, slot_by, slots, is_started, is_launched-append,
}

module _ {ℓ} {A : Type ℓ} where
  length-snoc : (n : ℕ) (xs : List A) (x : A) → length xs ≡ n → length (xs ++ x ∷ []) ≡ n + 1
  length-snoc n xs x e = omega (arith, e, length-append xs (x ∷ []))

  snoc-append : (xs ys : List A) (x : A) → (xs ++ x ∷ []) ++ ys ≡ xs ++ x ∷ ys
  snoc-append xs ys x = append_assoc xs (x ∷ []) ys

module _ {Value : Type 0} (h : Host Value) (s : Schedule) where
  plans : List ToolCall → List (CallPlan Value)
  plans cs = map (authorize h) cs

  -- One slot of the sequential pass.
  step_slot :
      (pre : List (Option Content)) (i : ℕ) (c : ToolCall) (ys : List (Option Content))
      (o : Option (Tool Value × Value))
      → length pre ≡ i
      → (if is_started o
          then pre ++ none ∷ ys
          else set
              (pre ++ none ∷ ys)
              i
              (some (execute_one h c (authorize h c) (s.cancelled_at_call i))))
        ≡ (pre ++ slot_by h s o i c ∷ []) ++ ys
  step_slot pre i c ys none e = set-append i pre ys none _ e ∙ sym (snoc-append pre ys _)
  step_slot pre i c ys (some p) e = sym (snoc-append pre ys none)

  -- The handles that the rest of the batch leaves, by what was started for its first call.
  more_handles : (i : ℕ) (c : ToolCall) (o : Option (Tool Value × Value)) → List (Handle Value)
  more_handles i c none = []
  more_handles i c (some (tool, args)) =
      record { index = i; call = c; tool = tool; args = args } ∷ []

  handles_of-cons :
      (i : ℕ) (c : ToolCall) (cs : List ToolCall)
      → handles_of h s i (c ∷ cs) (plans (c ∷ cs))
        ≡ more_handles i c (launch h s i c (authorize h c)) ++ handles_of h s (i + 1) cs (plans cs)
  unfolding handles_of more_handles plans
  handles_of-cons i c cs = ground arith

  -- A handle at place `i` is none of a later place.
  is_launched-more_handles :
      (before : List (Handle Value)) (i : ℕ) (c : ToolCall) (o : Option (Tool Value × Value))
      → ((j : ℕ) → i ≤ j → is_launched before j ≡ false)
      → (j : ℕ) → i + 1 ≤ j
      → is_launched (before ++ more_handles i c o) j ≡ false
  unfolding is_launched more_handles
  is_launched-more_handles before i c none f j le =
      ap (λ l. is_launched l j) (append-nil before) ∙ f j (omega arith)
  is_launched-more_handles before i c (some (tool, args)) f j le = ground (
    arith,
    f j,
    any-append (λ (t : Handle Value). t.index == j) before (more_handles i c (some (tool, args))),
  )

  sequential_pass_lem :
      (before : List (Handle Value)) (i : ℕ) (cs : List ToolCall) (pre : List (Option Content))
      → ((j : ℕ) → i ≤ j → is_launched before j ≡ false)
      → length pre ≡ i
      → sequential_pass h s
          (before ++ handles_of h s i cs (plans cs))
          i
          cs
          (plans cs)
          (pre ++ map (λ _. none) cs)
        ≡ pre ++ slots h s i cs
  unfolding sequential_pass plans
  sequential_pass_lem before i [] pre f e = refl
  sequential_pass_lem before i (c ∷ cs) pre f e =
      let o = launch h s i c (authorize h c) in
      let handles = before ++ handles_of h s i (c ∷ cs) (plans (c ∷ cs)) in
      ap
        (λ b. sequential_pass h s handles (i + 1) cs (plans cs) (
          if b
          then pre ++ none ∷ map (λ _. none) cs
          else set (pre ++ none ∷ map (λ _. none) cs) i
              (some (execute_one h c (authorize h c) (s.cancelled_at_call i)))))
        (is_launched-append h s before i c cs (f i (omega arith)))
      ∙ ap (sequential_pass h s handles (i + 1) cs (plans cs))
          (step_slot pre i c (map (λ _. none) cs) o e)
      ∙ ap
          (λ l.
            sequential_pass h s l (i + 1) cs (plans cs)
              ((pre ++ slot_by h s o i c ∷ []) ++ map (λ _. none) cs))
          (ap (λ l. before ++ l) (handles_of-cons i c cs)
            ∙ sym (append_assoc before (more_handles i c o) (handles_of h s (i + 1) cs (plans cs))))
      ∙ sequential_pass_lem (before ++ more_handles i c o) (i + 1) cs
          (pre ++ slot_by h s o i c ∷ []) (is_launched-more_handles before i c o f)
          (length-snoc i pre (slot_by h s o i c) e)
      ∙ snoc-append pre (slots h s (i + 1) cs) (slot_by h s o i c)

  -- One step of the collection, by what was started for the call.
  step_collect :
      (pre : List (Option Content)) (i : ℕ) (c : ToolCall) (ys : List (Option Content))
      (hs : List (Handle Value)) (o : Option (Tool Value × Value))
      → length pre ≡ i
      → collect_pass h s (more_handles i c o ++ hs) (pre ++ slot_by h s o i c ∷ ys)
        ≡ collect_pass h s hs ((pre ++ some (answer_by h s o i c) ∷ []) ++ ys)
  unfolding collect_pass more_handles
  step_collect pre i c ys hs none e = ap (collect_pass h s hs) (sym (snoc-append pre ys _))
  step_collect pre i c ys hs (some (tool, args)) e =
      ap (collect_pass h s hs) (set-append i pre ys none _ e ∙ sym (snoc-append pre ys _))

  collect_pass_lem :
      (i : ℕ) (cs : List ToolCall) (pre : List (Option Content))
      → length pre ≡ i
      → collect_pass h s (handles_of h s i cs (plans cs)) (pre ++ slots h s i cs)
        ≡ pre ++ map some (answer_all h s i cs)
  unfolding collect_pass handles_of
  collect_pass_lem i [] pre e = refl
  collect_pass_lem i (c ∷ cs) pre e =
      let o = launch h s i c (authorize h c) in
      ap (λ l. collect_pass h s l (pre ++ slots h s i (c ∷ cs))) (handles_of-cons i c cs)
      ∙ step_collect pre i c (slots h s (i + 1) cs) (handles_of h s (i + 1) cs (plans cs)) o e
      ∙ collect_pass_lem (i + 1) cs (pre ++ some (answer h s i c) ∷ [])
          (length-snoc i pre (some (answer h s i c)) e)
      ∙ snoc-append pre (map some (answer_all h s (i + 1) cs)) (some (answer h s i c))

  -- No slot is left for the last pass.
  fill_pass_lem :
      (i : ℕ) (cs : List ToolCall) (pre : List (Option Content))
      → length pre ≡ i
      → fill_pass i cs (pre ++ map some (answer_all h s i cs))
        ≡ pre ++ map some (answer_all h s i cs)
  unfolding fill_pass
  fill_pass_lem i [] pre e = refl
  fill_pass_lem i (c ∷ cs) pre e =
      let r = some (answer h s i c) in
      let rs = map some (answer_all h s (i + 1) cs) in
      ap
        (λ (o : Option (Option Content)). fill_pass (i + 1) cs (elim o [
          | some none ↦ set (pre ++ r ∷ rs) i (some (synth_error c.id "aborted by user"))
          | _ ↦ pre ++ r ∷ rs
        ]))
        (get_elem?-append i pre rs r e)
      ∙ ap (fill_pass (i + 1) cs) (sym (snoc-append pre rs r))
      ∙ fill_pass_lem (i + 1) cs (pre ++ r ∷ []) (length-snoc i pre r e)
      ∙ snoc-append pre rs r

unwrap_all-some : (rs : List Content) → unwrap_all (map some rs) ≡ some rs
unfolding unwrap_all
unwrap_all-some [] = refl
unwrap_all-some (r ∷ rs) = ground (arith, unwrap_all-some rs)

-- However the batch is cut up between threads and the calling thread, whichever calls the user cancels
-- and however each worker ends, every call gets its own answer: the result of running it under its
-- verdict, or the error that says why it was not run. The results stand in the order of the calls, and
-- no slot is left empty.
pub run_tool_batch-answer_all :
    {Value : Type 0} (h : Host Value) (s : Schedule) (calls : List ToolCall)
    → run_tool_batch h s calls ≡ some (answer_all h s 0 calls)
unfolding run_tool_batch plans is_launched
run_tool_batch-answer_all h s calls =
    ap
      (λ l.
        unwrap_all
          (fill_pass 0 calls (collect_pass h s (handles_of h s 0 calls (plans h s calls)) l)))
      (sequential_pass_lem h s [] 0 calls [] (λ j le. refl) refl)
    ∙ ap (λ l. unwrap_all (fill_pass 0 calls l)) (collect_pass_lem h s 0 calls [] refl)
    ∙ ap unwrap_all (fill_pass_lem h s 0 calls [] refl)
    ∙ unwrap_all-some (answer_all h s 0 calls)
