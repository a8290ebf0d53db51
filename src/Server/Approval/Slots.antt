-- ===== src/Server/Approval/Slots.antt =====
-- What an answer and a question write into the slots of the registry (crates/kn9t-server/src/policy.rs).
use kn9t.Prelude.{
  ℕ, zero, suc, ◌<◌, ◌≡◌, refl, sym, ap, ◌∙◌, String, Bool, true, false, Option, none, some, List,
  [], ◌∷◌, ◌++◌, ◌⊎◌, inl, inr, length, length-append, set, get_elem?, is_some, get_elem?-append,
  Option-cases, Bool-cases, ◌==◌, arith,
}
use kn9t.Prelude.Numbered.{find, find-put}
use kn9t.React.Tools.{Decision}
use kn9t.Server.Approval.{
  ApprovalMeta, Approvals, decision_at, resolve, resolve_with_meta, Scope, is_allow,
  effective_scope, resolved, answered_with, decision_for,
}
use kn9t.Server.Approval.Wait.{Move, answer, ask, asked}

module _ {ℓ} {A : Type ℓ} where
  get_elem?-set :
      (xs : List A) (i j : ℕ) (v : A)
      → (get_elem? (set xs i v) j ≡ get_elem? xs j)
        ⊎ ((i ≡ j) × (get_elem? (set xs i v) j ≡ some v))
  get_elem?-set [] i j v = inl refl
  get_elem?-set (x ∷ xs) zero zero v = inr (refl, refl)
  get_elem?-set (x ∷ xs) zero (suc j) v = inl refl
  get_elem?-set (x ∷ xs) (suc i) zero v = inl refl
  get_elem?-set (x ∷ xs) (suc i) (suc j) v = elim (get_elem?-set xs i j v) [
    | inl same ↦ inl same
    | inr (e, written) ↦ inr (ap suc e, written)
  ]

  length-set : (xs : List A) (i : ℕ) (v : A) → length (set xs i v) ≡ length xs
  length-set [] i v = refl
  length-set (x ∷ xs) zero v = refl
  length-set (x ∷ xs) (suc i) v = ap suc (length-set xs i v)

  get_elem?-front :
      (xs ys : List A) (i : ℕ) → i < length xs → get_elem? (xs ++ ys) i ≡ get_elem? xs i
  get_elem?-front [] ys i h = absurd (omega arith)
  get_elem?-front (x ∷ xs) ys zero h = refl
  get_elem?-front (x ∷ xs) ys (suc i) h = get_elem?-front xs ys i (omega arith)

-- An answer to `id` has written the decision into the slot of `id` at most.
pub record IsAnswered (s s' : Approvals) (id : ℕ) (d : Decision) : Type 0 where
  pub inner_kept : s'.inner ≡ s.inner
  pub length_kept : length s'.slots ≡ length s.slots
  pub written :
      (slot : ℕ)
      → (get_elem? s'.slots slot ≡ get_elem? s.slots slot)
        ⊎ ((find s.inner id ≡ some slot) × (get_elem? s'.slots slot ≡ some (some d)))

set-IsAnswered :
    (s : Approvals) (id place : ℕ) (d : Decision)
    → find s.inner id ≡ some place
    → IsAnswered s (record s { slots = set s.slots place (some d) }) id d
set-IsAnswered s id place d found = record {
  inner_kept = refl;
  length_kept = length-set s.slots place (some d);
  written = λ slot. elim (get_elem?-set s.slots place slot (some d)) [
    | inl same ↦ inl same
    | inr (e, now) ↦ inr (found ∙ ap some e, now)
  ];
}

twice-IsAnswered :
    (s s' s'' : Approvals) (id : ℕ) (d : Decision)
    → IsAnswered s s' id d
    → IsAnswered s' s'' id d
    → IsAnswered s s'' id d
twice-IsAnswered s s' s'' id d a b = record {
  inner_kept = b.inner_kept ∙ a.inner_kept;
  length_kept = b.length_kept ∙ a.length_kept;
  written = λ slot. elim (b.written slot) [
    | inr (found, now) ↦ inr (sym (ap (λ t. find t id) a.inner_kept) ∙ found, now)
    | inl same ↦ elim (a.written slot) [
      | inl before ↦ inl (same ∙ before)
      | inr (found, now) ↦ inr (found, same ∙ now)
    ]
  ];
}

same-IsAnswered : (s : Approvals) (id : ℕ) (d : Decision) → IsAnswered s s id d
same-IsAnswered s id d = record {
  inner_kept = refl;
  length_kept = refl;
  written = λ slot. inl refl;
}

resolve-IsAnswered : (s : Approvals) (id : ℕ) (d : Decision) → IsAnswered s (resolve s id d).1 id d
unfolding resolve
resolve-IsAnswered s id d = elim (Option-cases (find s.inner id)) [
  | inl absent ↦ rw (absent, resolve) (same-IsAnswered s id d)
  | inr (place, found) ↦ rw (found, resolve) (set-IsAnswered s id place d found)
]

resolve_with_meta-IsAnswered :
    (s : Approvals) (id : ℕ) (d : Decision) → IsAnswered s (resolve_with_meta s id d).1 id d
unfolding resolve_with_meta
resolve_with_meta-IsAnswered s id d = elim (Option-cases (find s.inner id)) [
  | inl absent ↦ rw (absent, resolve_with_meta) (same-IsAnswered s id d)
  | inr (place, found) ↦ rw (found, resolve_with_meta) (set-IsAnswered s id place d found)
]

resolved-IsAnswered :
    (s s' : Approvals) (id : ℕ) (allow : Bool) (scope : Scope) (meta : Option ApprovalMeta)
    → IsAnswered s s' id (decision_for allow)
    → IsAnswered s (resolved s id allow scope (meta, s')) id (decision_for allow)
unfolding resolved
resolved-IsAnswered s s' id allow scope none a =
    twice-IsAnswered s s' _ id (decision_for allow) a
      (resolve-IsAnswered s' id (decision_for allow))
resolved-IsAnswered s s' id true scope (some meta) a = record {
  inner_kept = a.inner_kept;
  length_kept = a.length_kept;
  written = a.written;
}
resolved-IsAnswered s s' id false scope (some meta) a = a

-- An answer that allows, to the question `id`.
abbrev pub allows : (id : ℕ) → Move → Bool
allows id (answer j decision scope) = elim (is_allow decision) [
  | some true ↦ elim (effective_scope decision scope) [ some _ ↦ j == id | none ↦ false ]
  | _ ↦ false
]
allows id (ask session tool fp) = false

-- The thread that asked `id` waits at `slot`, which is no other question's.
pub record IsWaiting (s : Approvals) (slot id : ℕ) : Type 0 where
  pub inside : slot < length s.slots
  pub mine : (j : ℕ) → find s.inner j ≡ some slot → j ≡ id

pub answered-IsWaiting :
    (s s' : Approvals) (slot id j : ℕ) (d : Decision)
    → IsAnswered s s' j d
    → IsWaiting s slot id
    → IsWaiting s' slot id
answered-IsWaiting s s' slot id j d a w = record {
  inside = omega (arith, a.length_kept, w.inside);
  mine = λ k h. w.mine k (sym (ap (λ t. find t k) a.inner_kept) ∙ h);
}

pub answered_decision :
    (s s' : Approvals) (slot id j : ℕ) (d : Decision)
    → IsAnswered s s' j d
    → IsWaiting s slot id
    → (decision_at s' slot ≡ decision_at s slot) ⊎ ((j ≡ id) × (decision_at s' slot ≡ some d))
unfolding decision_at
answered_decision s s' slot id j d a w = elim (a.written slot) [
  | inl same ↦ inl (ground (arith, same))
  | inr (found, now) ↦ inr (w.mine j found, ground (arith, now))
]

pub asked-IsWaiting :
    (s : Approvals) (slot id : ℕ) (session tool fp : String)
    → IsWaiting s slot id
    → IsWaiting (asked s session tool fp).1 slot id
unfolding asked
asked-IsWaiting s slot id session tool fp w =
    let grown = length-append s.slots (none ∷ []) in
    record {
      inside = omega (arith, grown, w.inside);
      mine = λ j h.
          w.mine j (ground (arith, find-put s.inner s.next_id j (length s.slots), h, w.inside));
    }

pub asked_decision :
    (s : Approvals) (slot id : ℕ) (session tool fp : String)
    → IsWaiting s slot id
    → decision_at (asked s session tool fp).1 slot ≡ decision_at s slot
unfolding asked decision_at
asked_decision s slot id session tool fp w =
    ground (arith, get_elem?-front s.slots (none ∷ []) slot w.inside)

-- Every identifier of the registry has a slot.
abbrev pub IsBounded : Approvals → Type 0
IsBounded s = (j p : ℕ) → find s.inner j ≡ some p → p < length s.slots

-- A new question waits, and is open.
pub asked_own :
    (s : Approvals) (session tool fp : String)
    → IsBounded s
    → IsWaiting (asked s session tool fp).1 (asked s session tool fp).0 s.next_id
      × (decision_at (asked s session tool fp).1 (asked s session tool fp).0 ≡ none)
unfolding asked decision_at
asked_own s session tool fp bounded =
    let here = get_elem?-append (length s.slots) s.slots [] none refl in
    (
      record {
        inside = omega (arith, length-append s.slots (none ∷ []));
        mine = λ j h. elim (Bool-cases (s.next_id == j)) [
          | inl own ↦ ground arith
          | inr other ↦
              let old =
                bounded j (length s.slots)
                  (ground (arith, find-put s.inner s.next_id j (length s.slots), h, other)) in
              absurd (omega (arith, old))
        ];
      },
      ground (arith, here),
    )

pub asked-IsBounded :
    (s : Approvals) (session tool fp : String) → IsBounded s → IsBounded (asked s session tool fp).1
unfolding asked
asked-IsBounded s session tool fp bounded j p h =
    let grown = length-append s.slots (none ∷ []) in
    elim (Bool-cases (s.next_id == j)) [
      | inl own ↦ ground (arith, find-put s.inner s.next_id j (length s.slots), h, own, grown)
      | inr other ↦
          let old =
            bounded j p (ground (arith, find-put s.inner s.next_id j (length s.slots), h, other)) in
          omega (arith, old, grown)
    ]

pub answered-IsBounded :
    (s s' : Approvals) (id : ℕ) (d : Decision) → IsAnswered s s' id d → IsBounded s → IsBounded s'
answered-IsBounded s s' id d a bounded j p h =
    let old = bounded j p (sym (ap (λ t. find t j) a.inner_kept) ∙ h) in
    omega (arith, old, a.length_kept)

-- What a move has done to the state.
pub moved-IsAnswered :
    (s : Approvals) (id j : ℕ) (allow : Option Bool) (scope : Option Scope)
    → (d : Decision) × IsAnswered s (answered_with s j allow scope).1 j d
      × (d ≡ Decision.allow
          → (allow ≡ some true) × (is_some scope ≡ true) ⊎ ((answered_with s j allow scope).1 ≡ s))
unfolding answered_with
moved-IsAnswered s id j none scope = (Decision.allow, same-IsAnswered s j _, λ e. inr refl)
moved-IsAnswered s id j (some allow) none = (Decision.allow, same-IsAnswered s j _, λ e. inr refl)
moved-IsAnswered s id j (some true) (some scope) = (
  Decision.allow,
  resolved-IsAnswered s _ j true scope _ (resolve_with_meta-IsAnswered s j _),
  λ e. inl (refl, refl),
)
moved-IsAnswered s id j (some false) (some scope) = (
  decision_for false,
  resolved-IsAnswered s _ j false scope _ (resolve_with_meta-IsAnswered s j _),
  λ e. cc,
)
