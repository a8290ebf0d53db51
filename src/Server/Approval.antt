-- ===== src/Server/Approval.antt =====
-- How a user's approval is asked for, waited for and remembered: crates/kn9t-server/src/policy.rs and
-- `resolve_approval` of crates/kn9t-server/src/turn.rs. The JSON of a call's arguments (`serde_json`) is read by the
-- parameter `json`; the TOML file that keeps the approvals that always hold is left out, as nothing waits on
-- how its rewriting ends. A slot is a place in the list of decisions, which its waiter keeps when the
-- registry has forgotten it. While a thread waits others answer and ask: a `Moment` is what
-- they did until the thread looks again, and what it then finds. Times are milliseconds.
pub mod Wait
pub mod Slots
pub mod Consent
pub mod Scopes
use Prim.Native.Char.{code}
use Prim.Native.String.{◌++◌ as append}
use kn9t.Prelude.{
  ℕ, zero, suc, ◌+◌, String, Bool, true, false, not, ◌&&◌, ◌||◌, Option, none, some, List, [], ◌∷◌,
  ◌++◌, ◌⊎◌, inl, inr, length, set, get_elem?, any, leb, str_eq, if◌then◌else◌,
}
use kn9t.Prelude.Maybe.{◌>>=◌}
use kn9t.Prelude.Numbered.{Numbered, find, put, remove}
use kn9t.Prelude.Table
use kn9t.Prelude.Table.{Table}
use kn9t.Prelude.Whitespace.{trim_start, trim_end}
use kn9t.React.Tools.{ToolCall, Decision}

-- `serde_json` as far as it is used.
pub record Json : Type 1 where
  pub Value : Type 0
  pub parse : String → Option Value
  pub get : Value → (key : String) → Option Value
  pub as_str : Value → Option String

pub record ApprovalCache : Type 0 where
  pub session : Table (List String)
  pub persistent : List String

pub record ApprovalMeta : Type 0 where
  pub fingerprint : String
  pub session_id : String
  pub tool : String

-- The registry, the cache, and the counter of the identifiers.
pub record Approvals : Type 0 where
  pub next_id : ℕ
  pub slots : List (Option Decision)
  pub inner : Numbered ℕ
  pub meta : Numbered ApprovalMeta
  pub cache : ApprovalCache

module _ (json : Json) where
  unfoldable pub extract_cmd : (args_json : String) → Option String
  extract_cmd args_json = do
    v ← json.parse args_json
    let text_at = λ (key : String). json.get v key >>= json.as_str
    elim (text_at "cmd") [
      | some s ↦ some s
      | none ↦ elim (text_at "command") [ some s ↦ some s | none ↦ json.as_str v ]
    ]

  unfoldable pub fingerprint : ToolCall → String
  unfolding extract_cmd trim_start trim_end
  fingerprint call =
      let plain = append call.name (append ":" call.args_json) in
      let of_bash : String = elim (extract_cmd call.args_json) [
        | some cmd ↦ append "bash:" (trim_end (trim_start cmd))
        | none ↦ plain
      ] in
      if str_eq call.name "bash" then of_bash else plain

unfoldable pub contains : String → List String → Bool
contains fp = any (λ x. str_eq x fp)

-- `HashSet::insert`
unfoldable pub insert : String → List String → List String
unfolding contains
insert fp xs = if contains fp xs then xs else fp ∷ xs

unfoldable pub or_default : Option (List String) → List String
or_default none = []
or_default (some xs) = xs

unfoldable pub is_approved : ApprovalCache → (session_id : Option String) → (fp : String) → Bool
unfolding contains or_default
is_approved cache none fp = contains fp cache.persistent
is_approved cache (some sid) fp =
    contains fp cache.persistent || contains fp (or_default (Table.find cache.session sid))

unfoldable pub approve_session : ApprovalCache → (session_id fp : String) → ApprovalCache
unfolding insert or_default
approve_session cache sid fp = record cache {
  session = Table.put cache.session sid (insert fp (or_default (Table.find cache.session sid)));
}

unfoldable pub approve_persistent : ApprovalCache → (fp : String) → ApprovalCache
unfolding insert
approve_persistent cache fp = record cache { persistent = insert fp cache.persistent }

-- Returns the place of the new slot.
unfoldable pub create : Approvals → (id : ℕ) → ApprovalMeta → ℕ × Approvals
create s id meta =
    let slot = length s.slots in
    (
      slot,
      record s {
        slots = s.slots ++ none ∷ [];
        inner = put s.inner id slot;
        meta = put s.meta id meta;
      },
    )

unfoldable pub remove_id : Approvals → (id : ℕ) → Approvals
remove_id s id = record s { inner = remove s.inner id; meta = remove s.meta id }

unfoldable pub decision_at : Approvals → (slot : ℕ) → Option Decision
decision_at s slot = elim (get_elem? s.slots slot) [ some (some d) ↦ some d | _ ↦ none ]

unfoldable pub resolve : Approvals → (id : ℕ) → Decision → Bool × Approvals
resolve s id decision = elim (find s.inner id) [
  | some slot ↦ (true, record s { slots = set s.slots slot (some decision) })
  | none ↦ (false, s)
]

unfoldable pub resolve_with_meta : Approvals → (id : ℕ) → Decision → Option ApprovalMeta × Approvals
resolve_with_meta s id decision = elim (find s.inner id) [
  | some slot ↦ (find s.meta id, record s { slots = set s.slots slot (some decision) })
  | none ↦ (none, s)
]

-- "allow" and "always" allow; `none` is an unknown word.
unfoldable pub is_allow : String → Option Bool
is_allow decision =
    if str_eq decision "allow" || str_eq decision "always"
    then some true
    else if str_eq decision "deny"
    then some false
    else none

pub data Scope : Type 0 where
  once session always : Scope

unfoldable pub scope_of : String → Option Scope
scope_of s =
    if str_eq s "once"
    then some once
    else if str_eq s "session"
    then some session
    else if str_eq s "always"
    then some always
    else none

-- Without a scope, and for the decision "always" in any case, the decision decides.
unfoldable pub effective_scope : (decision : String) → Option String → Option Scope
unfolding scope_of
effective_scope decision none = some (if str_eq decision "always" then always else once)
effective_scope decision (some s) = do
  scope ← scope_of s
  some (if str_eq decision "always" then always else scope)

unfoldable pub remembered : ApprovalCache → ApprovalMeta → Scope → ApprovalCache
unfolding approve_session approve_persistent
remembered cache meta once = cache
remembered cache meta session =
    if str_eq meta.session_id ""
    then cache
    else approve_session cache meta.session_id meta.fingerprint
remembered cache meta always = approve_persistent cache meta.fingerprint

abbrev pub decision_for : (allow : Bool) → Decision
decision_for true = Decision.allow
decision_for false = Decision.deny "denied by user"

unfoldable pub resolved :
    Approvals → (id : ℕ) → (allow : Bool) → Scope → Option ApprovalMeta × Approvals → Approvals
unfolding resolve remembered
resolved s id allow scope (none, s') = (resolve s' id (decision_for allow)).1
resolved s id allow scope (some meta, s') =
    if allow then record s' { cache = remembered s'.cache meta scope } else s'

unfoldable pub answered_with :
    Approvals → (id : ℕ) → (allow : Option Bool) → Option Scope → Option Decision × Approvals
unfolding resolve_with_meta resolved
answered_with s id none scope = (none, s)
answered_with s id (some allow) none = (none, s)
answered_with s id (some allow) (some scope) = (
  some (decision_for allow),
  resolved s id allow scope (resolve_with_meta s id (decision_for allow)),
)

-- `none` is the answer 400 to a word that is not known.
unfoldable pub resolve_approval :
    Approvals
    → (id : ℕ) → (decision : String) → (scope : Option String) → Option Decision × Approvals
unfolding is_allow effective_scope answered_with
resolve_approval s id decision scope =
    answered_with s id (is_allow decision) (effective_scope decision scope)
