-- ===== src/Server/Approval/Consent.antt =====
-- Consent (crates/kn9t-server/src/policy.rs): what has to be answered before a call is allowed, and that the wait
-- for it ends.
use kn9t.Prelude.{
  ℕ, ◌≡◌, refl, sym, ap, ◌∙◌, String, true, false, ◌||◌, Option, none, some, is_some, List, [], ◌∷◌,
  ◌⊎◌, inl, inr, any, Option-cases, Bool-cases, arith,
}
use kn9t.Prelude.Numbered.{find, find-remove}
use kn9t.React.Tools.{ToolCall, Decision}
use kn9t.Server.Approval.{
  Json, Approvals, fingerprint, is_approved, remove_id, decision_at, is_allow, effective_scope,
  resolve_approval,
}
use kn9t.Server.Approval.Wait.{
  Move, answer, ask, Moment, asked, moved, moved_all, is_expired, wait, waited, request,
  cancelled_deny, timed_out_deny,
}
use kn9t.Server.Approval.Slots.{
  IsWaiting, IsBounded, allows, answered-IsWaiting, answered_decision, asked-IsWaiting,
  asked_decision, asked_own, moved-IsAnswered,
}

allows_answer :
    (id j : ℕ) (decision : String) (scope : Option String)
    → is_allow decision ≡ some true
    → is_some (effective_scope decision scope) ≡ true
    → j ≡ id
    → allows id (answer j decision scope) ≡ true
allows_answer id j decision scope known scoped e = ground arith

moved-IsWaiting :
    (s : Approvals) (slot id : ℕ) (m : Move) → IsWaiting s slot id → IsWaiting (moved s m) slot id
unfolding moved resolve_approval
moved-IsWaiting s slot id (answer j decision scope) w =
    let (d, a, c) = moved-IsAnswered s id j (is_allow decision) (effective_scope decision scope) in
    answered-IsWaiting s _ slot id j d a w
moved-IsWaiting s slot id (ask session tool fp) w = asked-IsWaiting s slot id session tool fp w

moved_decision :
    (s : Approvals) (slot id : ℕ) (m : Move)
    → IsWaiting s slot id
    → decision_at (moved s m) slot ≡ some Decision.allow
    → (decision_at s slot ≡ some Decision.allow) ⊎ (allows id m ≡ true)
unfolding moved resolve_approval
moved_decision s slot id (ask session tool fp) w h =
    inl (sym (asked_decision s slot id session tool fp w) ∙ h)
moved_decision s slot id (answer j decision scope) w h =
    let (d, a, c) = moved-IsAnswered s id j (is_allow decision) (effective_scope decision scope) in
    elim (answered_decision s _ slot id j d a w) [
      | inl same ↦ inl (sym same ∙ h)
      | inr (e, now) ↦
          let allowed : d ≡ Decision.allow = cc in
          elim (c allowed) [
            | inl (known, scoped) ↦ inr (allows_answer id j decision scope known scoped e)
            | inr same ↦ inl (sym (ap (λ t. decision_at t slot) same) ∙ h)
          ]
    ]

moved_all-IsWaiting :
    (s : Approvals) (slot id : ℕ) (ms : List Move)
    → IsWaiting s slot id
    → IsWaiting (moved_all s ms) slot id
unfolding moved_all
moved_all-IsWaiting s slot id [] w = w
moved_all-IsWaiting s slot id (m ∷ ms) w =
    moved_all-IsWaiting (moved s m) slot id ms (moved-IsWaiting s slot id m w)

moved_all_decision :
    (s : Approvals) (slot id : ℕ) (ms : List Move)
    → IsWaiting s slot id
    → decision_at (moved_all s ms) slot ≡ some Decision.allow
    → (decision_at s slot ≡ some Decision.allow) ⊎ (any (allows id) ms ≡ true)
unfolding moved_all
moved_all_decision s slot id [] w h = inl h
moved_all_decision s slot id (m ∷ ms) w h =
    elim (moved_all_decision (moved s m) slot id ms (moved-IsWaiting s slot id m w) h) [
      | inr later ↦ inr (ground (arith, later))
      | inl there ↦ elim (moved_decision s slot id m w there) [
        | inl before ↦ inl before
        | inr now ↦ inr (ground (arith, now))
      ]
    ]

wait_allow :
    (s : Approvals) (slot id : ℕ) (expires_at : Option ℕ) (ms : List Moment)
    → IsWaiting s slot id
    → (wait s slot id expires_at ms).0 ≡ some Decision.allow
    → (decision_at s slot ≡ some Decision.allow)
      ⊎ (any (λ (m : Moment). any (allows id) m.before) ms ≡ true)
unfolding wait
wait_allow s slot id expires_at [] w h = cc
wait_allow s slot id expires_at (m ∷ ms) w h =
    let s' = moved_all s m.before in
    let w' = moved_all-IsWaiting s slot id m.before w in
    elim (Option-cases (decision_at s' slot)) [
      | inr (d, found) ↦
          let now : decision_at s' slot ≡ some Decision.allow = ground (arith, found, h) in
          elim (moved_all_decision s slot id m.before w now) [
            | inl before ↦ inl before
            | inr here ↦ inr (ground (arith, here))
          ]
      | inl unset ↦
          let later : (wait s' slot id expires_at ms).0 ≡ some Decision.allow =
            ground (arith, unset, h) in
          elim (wait_allow s' slot id expires_at ms w' later) [
            | inl there ↦ cc
            | inr rest ↦ inr (ground (arith, rest))
          ]
    ]

waited_allow : (id : ℕ) (r : Option Decision × Approvals) → (waited id r).0 ≡ r.0
unfolding waited
waited_allow id (none, s) = refl
waited_allow id (some d, s) = refl

module _ (json : Json) where
  request_waits :
      (s : Approvals) (call : ToolCall) (session : String) (expires_at : Option ℕ)
      (moments : List Moment)
      → is_approved s.cache (some session) (fingerprint json call) ≡ false
      → request json s call session expires_at moments ≡ (
          let (slot, s') = asked s session call.name (fingerprint json call) in
          waited s.next_id (wait s' slot s.next_id expires_at moments))
  unfolding request
  request_waits s call session expires_at moments new = rw new

  -- A call is allowed only if an approval for its fingerprint in its session is remembered, or while
  -- it waits someone gives a well-formed answer to this question that allows it: neither a
  -- cancellation, nor the deadline, nor an answer to another question does.
  pub request-allow :
      (s : Approvals) (call : ToolCall) (session : String) (expires_at : Option ℕ)
      (moments : List Moment)
      → IsBounded s
      → (request json s call session expires_at moments).0 ≡ some Decision.allow
      → (is_approved s.cache (some session) (fingerprint json call) ≡ true)
        ⊎ (any (λ (m : Moment). any (allows s.next_id) m.before) moments ≡ true)
  request-allow s call session expires_at moments bounded h =
      let fp = fingerprint json call in
      let a = asked s session call.name fp in
      let (w, unset) = asked_own s session call.name fp bounded in
      elim (Bool-cases (is_approved s.cache (some session) fp)) [
        | inl known ↦ inl known
        | inr new ↦
            let outcome = wait a.1 a.0 s.next_id expires_at moments in
            let allowed : outcome.0 ≡ some Decision.allow =
              sym (waited_allow s.next_id outcome)
              ∙ sym (ap (λ r. r.0) (request_waits s call session expires_at moments new))
              ∙ h in
            elim (wait_allow a.1 a.0 s.next_id expires_at moments w allowed) [
              | inl there ↦ cc
              | inr answered ↦ inr answered
            ]
      ]

wait_ends :
    (s : Approvals) (slot id : ℕ) (expires_at : Option ℕ) (ms : List Moment)
    → any (λ (m : Moment). m.cancelled || is_expired expires_at m.now) ms ≡ true
    → (d : Decision) × (s' : Approvals) × (wait s slot id expires_at ms ≡ (some d, s'))
unfolding wait
wait_ends s slot id expires_at [] h = cc
wait_ends s slot id expires_at (m ∷ ms) h =
    let s' = moved_all s m.before in
    elim (Option-cases (decision_at s' slot)) [
      | inr (d, found) ↦ (d, s', ground (arith, found))
      | inl unset ↦ elim (Bool-cases m.cancelled) [
        | inl off ↦ (cancelled_deny, remove_id s' id, ground (arith, unset, off))
        | inr on ↦ elim (Bool-cases (is_expired expires_at m.now)) [
          | inl late ↦ (timed_out_deny, remove_id s' id, ground (arith, unset, on, late))
          | inr early ↦
              let (d, s'', e) = wait_ends s' slot id expires_at ms (ground (arith, h, on, early)) in
              (d, s'', ground (arith, unset, on, early, e))
        ]
      ]
    ]

removed :
    (s : Approvals) (id : ℕ)
    → (find (remove_id s id).inner id ≡ none) × (find (remove_id s id).meta id ≡ none)
unfolding remove_id
removed s id = (ground (arith, find-remove s.inner id id), ground (arith, find-remove s.meta id id))

module _ (json : Json) where
  -- If at some moment the turn is cancelled or the deadline is past, a request for an approval
  -- returns, whether or not anyone answers it: at once, with nothing changed, if an approval is remembered, and
  -- otherwise with its question removed from the registry.
  pub request_ends :
      (s : Approvals) (call : ToolCall) (session : String) (expires_at : Option ℕ)
      (moments : List Moment)
      → any (λ (m : Moment). m.cancelled || is_expired expires_at m.now) moments ≡ true
      → (d : Decision) × (s' : Approvals) × (request json s call session expires_at moments
          ≡ (some d, s'))
        × ((d ≡ Decision.allow) × (s' ≡ s)
            ⊎ (find s'.inner s.next_id ≡ none) × (find s'.meta s.next_id ≡ none))
  request_ends s call session expires_at moments h =
      let fp = fingerprint json call in
      let a = asked s session call.name fp in
      elim (Bool-cases (is_approved s.cache (some session) fp)) [
        | inl known ↦ (Decision.allow, s, (unfold request in rw known), inl (refl, refl))
        | inr new ↦
            let (d, s', e) = wait_ends a.1 a.0 s.next_id expires_at moments h in
            (
              d,
              remove_id s' s.next_id,
              request_waits json s call session expires_at moments new
                  ∙ ap (waited s.next_id) e
                  ∙ (unfold waited in refl),
              inr (removed s' s.next_id),
            )
      ]
