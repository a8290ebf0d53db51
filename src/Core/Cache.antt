-- ===== src/Core/Cache.antt =====
-- `breakpoints` of crates/kn9t-core/src/cache.rs: where a request marks the prompt cache.
pub mod Bounds
use kn9t.Prelude.{
  ℕ, zero, suc, ◌-◌, Bool, true, false, ◌||◌, Option, none, some, List, [], ◌∷◌, ◌++◌, length, leb,
  ◌==◌, if◌then◌else◌,
}
use kn9t.Core.Message.{Role, role_eq, Message}
use kn9t.Core.Model.{CacheMode, explicit, automatic}

pub data Cache : Type 0 where
  system : Cache
  after_message : (idx : ℕ) → Cache

unfoldable pub cache_eq : Cache → Cache → Bool
cache_eq system system = true
cache_eq (after_message i) (after_message j) = i == j
cache_eq _ _ = false

-- `messages.iter().rposition(|m| m.role == Role::User)`
unfoldable pub last_user : List Message → Option ℕ
last_user [] = none
last_user (m ∷ ms) = elim (last_user ms) [
  | some i ↦ some (suc i)
  | none ↦ if role_eq m.role Role.user then some 0 else none
]

-- `usize::checked_sub`
unfoldable pub checked_sub : ℕ → ℕ → Option ℕ
checked_sub a b = if leb b a then some (a - b) else none

-- One candidate in the list of those that are there.
unfoldable pub push_idx : Option ℕ → List Cache → List Cache
push_idx none rest = rest
push_idx (some idx) rest = after_message idx ∷ rest

-- The candidates in priority order, `None` ones flattened away.
unfoldable pub candidates : List Message → List Cache
unfolding last_user checked_sub push_idx
candidates messages =
    let len = length messages in
    system
    ∷ push_idx (last_user messages) (push_idx (checked_sub len 2) (push_idx (checked_sub len 1) []))

unfoldable pub contains : Cache → List Cache → Bool
contains c [] = false
contains c (x ∷ xs) = cache_eq x c || contains c xs

-- The loop over the candidates, with `out` as it stands at each round.
unfoldable pub select : ℕ → List Cache → List Cache → List Cache
unfolding contains cache_eq
select max out [] = out
select max out (c ∷ cs) =
    let out' = out ++ c ∷ [] in
    let skip = select max out cs in
    let more = select max out' cs in
    if contains c out then skip else if length out' == max then out' else more

unfoldable pub breakpoints : List Message → CacheMode → List Cache
unfolding candidates select
breakpoints messages (explicit max_breakpoints _) = select max_breakpoints [] (candidates messages)
breakpoints messages automatic = select 4 [] (candidates messages)
breakpoints messages CacheMode.none = []
