-- ===== src/Server/Approval/Wait.antt =====
-- `ApprovalRegistry::wait` and the two approvers of crates/kn9t-server/src/policy.rs.
use Prim.Native.String.{◌++◌ as append}
use kn9t.Prelude.{
  ℕ, ◌+◌, String, Bool, false, Option, none, some, List, [], ◌∷◌, leb, if◌then◌else◌,
}
use kn9t.React.Tools.{ToolCall, Decision}
use kn9t.Server.Approval.{
  Json, ApprovalCache, Approvals, fingerprint, is_approved, create, remove_id, decision_at,
  resolve_approval,
}

-- `POST /approve`, and a question of another thread.
pub data Move : Type 0 where
  answer : (id : ℕ) (decision : String) (scope : Option String) → Move
  ask : (session tool fingerprint : String) → Move

pub record Moment : Type 0 where
  pub before : List Move
  pub cancelled : Bool
  pub now : ℕ

unfoldable pub asked : Approvals → (session tool fp : String) → ℕ × Approvals
unfolding create
asked s session tool fp =
    create (record s { next_id = s.next_id + 1 }) s.next_id
      (record { fingerprint = fp; session_id = session; tool = tool })

unfoldable pub moved : Approvals → Move → Approvals
unfolding resolve_approval asked
moved s (answer id decision scope) = (resolve_approval s id decision scope).1
moved s (ask session tool fp) = (asked s session tool fp).1

unfoldable pub moved_all : Approvals → List Move → Approvals
unfolding moved
moved_all s [] = s
moved_all s (m ∷ ms) = moved_all (moved s m) ms

unfoldable pub is_expired : (expires_at : Option ℕ) → (now : ℕ) → Bool
is_expired none now = false
is_expired (some at) now = leb at now

abbrev pub cancelled_deny : Decision
cancelled_deny = Decision.deny "cancelled"

abbrev pub timed_out_deny : Decision
timed_out_deny = Decision.deny "approval timed out with no answer"

-- `none` is a thread that still waits when the moments are over.
unfoldable pub wait :
    Approvals → (slot id : ℕ) → (expires_at : Option ℕ) → List Moment → Option Decision × Approvals
unfolding moved_all decision_at remove_id is_expired
wait s slot id expires_at [] = (none, s)
wait s slot id expires_at (m ∷ ms) =
    let s' = moved_all s m.before in
    let rest = wait s' slot id expires_at ms in
    elim (decision_at s' slot) [
      | some d ↦ (some d, s')
      | none ↦
          if m.cancelled
          then (some cancelled_deny, remove_id s' id)
          else if is_expired expires_at m.now
          then (some timed_out_deny, remove_id s' id)
          else rest
    ]

unfoldable pub waited : (id : ℕ) → Option Decision × Approvals → Option Decision × Approvals
unfolding remove_id
waited id (none, s) = (none, s)
waited id (some d, s) = (some d, remove_id s id)

module _ (json : Json) where
  -- `InteractiveApprover::request`
  unfoldable pub request :
      Approvals
      → ToolCall
      → (session : String) → (expires_at : Option ℕ) → List Moment
      → Option Decision × Approvals
  unfolding fingerprint is_approved asked wait waited
  request s call session expires_at moments =
      let fp = fingerprint json call in
      let (slot, s') = asked s session call.name fp in
      let answered = waited s.next_id (wait s' slot s.next_id expires_at moments) in
      if is_approved s.cache (some session) fp then (some Decision.allow, s) else answered

  -- `NonInteractiveApprover::request`
  unfoldable pub request_non_interactive :
      ApprovalCache → ToolCall → (session reason : String) → Decision
  unfolding fingerprint is_approved
  request_non_interactive cache call session reason =
      if is_approved cache (some session) (fingerprint json call)
      then Decision.allow
      else Decision.deny
          (append "approval required (" (append reason ") but session is non-interactive"))
