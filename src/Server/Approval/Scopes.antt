-- ===== src/Server/Approval/Scopes.antt =====
-- What an answer makes the server remember (crates/kn9t-server/src/turn.rs, policy.rs).
use text.Mathlib.TextEquality.{eq_iff}
use kn9t.Prelude.{
  ℕ, ◌≡◌, refl, String, Bool, true, false, not, ◌&&◌, ◌||◌, Option, none, some, List, Option-cases,
  Bool-cases, inl, inr, str_eq, arith,
}
use kn9t.Prelude.Numbered.{find}
use kn9t.Prelude.Table
use kn9t.Server.Approval.{
  ApprovalCache, ApprovalMeta, Approvals, contains, insert, or_default, is_approved,
  approve_session, approve_persistent, Scope, once, session, always, is_allow, effective_scope,
  remembered, resolved, answered_with, resolve_approval, resolve_with_meta, decision_for,
}

contains-insert :
    (a b : String) (xs : List String) → contains b (insert a xs) ≡ (str_eq a b || contains b xs)
unfolding insert contains
contains-insert a b xs = elim (Bool-cases (contains a xs)) [
  | inl old ↦ elim (Bool-cases (str_eq a b)) [
    | inl same ↦ let e : a ≡ b = (eq_iff a b).0 same in rw (old, same) (rw (← e) old)
    | inr differs ↦ rw (old, differs)
  ]
  | inr new ↦ rw new refl
]

-- An approval with this scope holds for the fingerprint in the session.
abbrev pub covers : ApprovalMeta → Scope → (sid fp : String) → Bool
covers meta once sid fp = false
covers meta session sid fp =
    str_eq meta.fingerprint fp && (str_eq meta.session_id sid && not (str_eq meta.session_id ""))
covers meta always sid fp = str_eq meta.fingerprint fp

is_approved-session :
    (cache : ApprovalCache) (by new sid fp : String)
    → is_approved (approve_session cache by new) (some sid) fp
      ≡ ((str_eq new fp && str_eq by sid) || is_approved cache (some sid) fp)
unfolding is_approved approve_session
is_approved-session cache by new sid fp =
    let old = or_default (Table.find cache.session by) in
    elim (Bool-cases (str_eq by sid)) [
      | inl same ↦
          let e : by ≡ sid = (eq_iff by sid).0 same in
          ground (
            arith,
            Table.find-put cache.session by sid (insert new old),
            contains-insert new fp old,
          )
      | inr differs ↦ ground (arith, Table.find-put cache.session by sid (insert new old))
    ]

is_approved-persistent :
    (cache : ApprovalCache) (new sid fp : String)
    → is_approved (approve_persistent cache new) (some sid) fp
      ≡ (str_eq new fp || is_approved cache (some sid) fp)
unfolding is_approved approve_persistent
is_approved-persistent cache new sid fp = ground (arith, contains-insert new fp cache.persistent)

is_approved-remembered :
    (cache : ApprovalCache) (meta : ApprovalMeta) (scope : Scope) (sid fp : String)
    → is_approved (remembered cache meta scope) (some sid) fp
      ≡ (covers meta scope sid fp || is_approved cache (some sid) fp)
unfolding remembered
is_approved-remembered cache meta once sid fp = refl
is_approved-remembered cache meta session sid fp =
    ground (arith, is_approved-session cache meta.session_id meta.fingerprint sid fp)
is_approved-remembered cache meta always sid fp =
    is_approved-persistent cache meta.fingerprint sid fp

-- An answer that is accepted, allows, and is to a question that waits, with the scope in which
-- it allows.
abbrev pub granted : Approvals → (id : ℕ) → Option Bool → Option Scope → (sid fp : String) → Bool
granted s id (some true) (some scope) sid fp = elim (find s.inner id) [
  | none ↦ false
  | some slot ↦ elim (find s.meta id) [ none ↦ false | some meta ↦ covers meta scope sid fp ]
]
granted s id allow scope sid fp = false

resolved-is_approved :
    (s : Approvals) (id : ℕ) (allow : Bool) (scope : Scope) (sid fp : String)
    → is_approved
        (resolved s id allow scope (resolve_with_meta s id (decision_for allow))).cache
        (some sid)
        fp
      ≡ (granted s id (some allow) (some scope) sid fp || is_approved s.cache (some sid) fp)
unfolding resolved resolve_with_meta
resolved-is_approved s id false scope sid fp = elim (Option-cases (find s.inner id)) [
  | inl absent ↦ ground (arith, absent)
  | inr (slot, found) ↦ elim (Option-cases (find s.meta id)) [
    | inl absent ↦ ground (arith, found, absent)
    | inr (meta, stored) ↦ ground (arith, found, stored)
  ]
]
resolved-is_approved s id true scope sid fp = elim (Option-cases (find s.inner id)) [
  | inl absent ↦ ground (arith, absent)
  | inr (slot, found) ↦ elim (Option-cases (find s.meta id)) [
    | inl absent ↦ ground (arith, found, absent)
    | inr (meta, stored) ↦
        ground (arith, found, stored, is_approved-remembered s.cache meta scope sid fp)
  ]
]

answered_with-is_approved :
    (s : Approvals) (id : ℕ) (allow : Option Bool) (scope : Option Scope) (sid fp : String)
    → is_approved (answered_with s id allow scope).1.cache (some sid) fp
      ≡ (granted s id allow scope sid fp || is_approved s.cache (some sid) fp)
unfolding answered_with
answered_with-is_approved s id none none sid fp = refl
answered_with-is_approved s id none (some scope) sid fp = refl
answered_with-is_approved s id (some true) none sid fp = refl
answered_with-is_approved s id (some false) none sid fp = refl
answered_with-is_approved s id (some allow) (some scope) sid fp =
    resolved-is_approved s id allow scope sid fp

-- After any answer a call counts as approved in a session exactly if it did before, or the answer
-- is well formed and allows, its question waits, and its scope covers the call: a call with the
-- same fingerprint, of the session that asked for the scope "session", which is not empty, and of any
-- session for the scope "always", which the decision "always" implies. A denial, an unknown word
-- and an answer to an unknown question change nothing.
pub resolve_approval-is_approved :
    (s : Approvals) (id : ℕ) (decision : String) (scope : Option String) (sid fp : String)
    → is_approved (resolve_approval s id decision scope).1.cache (some sid) fp ≡ (
        granted s id (is_allow decision) (effective_scope decision scope) sid fp
        || is_approved s.cache (some sid) fp)
unfolding resolve_approval
resolve_approval-is_approved s id decision scope sid fp =
    answered_with-is_approved s id (is_allow decision) (effective_scope decision scope) sid fp
