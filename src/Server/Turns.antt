-- ===== src/Server/Turns.antt =====
-- Which turn of a session is running: the registry of crates/kn9t-server/src/turn.rs (`TurnSlot`,
-- `release_turn`, `abort_turn`), the idle accounting of state.rs, and `SessionSink::emit` of bus.rs as far as
-- it releases a turn. Each operation holds the registry's lock, so it is one step; but
-- `SessionSink::emit` asks for the running turn and releases it under two locks, so Turns.Live lets it release
-- any turn. A `Cancel` is a
-- place in the list of flags, where the clones of one handle share a place. Times are milliseconds.
pub mod Live
pub mod Successor
use kn9t.Prelude.{
  ℕ, zero, suc, ◌+◌, ◌-◌, ◌%◌, ◌^◌, String, Bool, true, false, not, Option, none, some, List, [],
  ◌∷◌, ◌++◌, length, set, get_elem?, is_some, ltb, leb, ◌==◌, if◌then◌else◌,
}
use kn9t.Prelude.Table.{Table, find, put, remove}
use mathlib.Core.Option

abbrev pub u64_mod : ℕ
u64_mod = 2 ^ 64

-- `fetch_add(1)` and `fetch_sub(1)` of an `AtomicU64` wrap.
abbrev pub wrapping_inc : ℕ → ℕ
wrapping_inc n = (n + 1) % u64_mod

abbrev pub wrapping_dec : ℕ → ℕ
wrapping_dec n = (n + u64_mod - 1) % u64_mod

pub record IdleTracker : Type 0 where
  pub attached_clients : ℕ
  pub running_turns : ℕ
  pub last_activity : ℕ
  pub idle_exit : ℕ

unfoldable pub touch : IdleTracker → (now : ℕ) → IdleTracker
touch t now = record t { last_activity = now }

unfoldable pub client_attached : IdleTracker → (now : ℕ) → IdleTracker
client_attached t now = record t {
  attached_clients = wrapping_inc t.attached_clients;
  last_activity = now;
}

unfoldable pub client_detached : IdleTracker → (now : ℕ) → IdleTracker
client_detached t now = record t {
  attached_clients = wrapping_dec t.attached_clients;
  last_activity = now;
}

unfoldable pub turn_started : IdleTracker → (now : ℕ) → IdleTracker
turn_started t now = record t { running_turns = wrapping_inc t.running_turns; last_activity = now }

unfoldable pub turn_ended : IdleTracker → (now : ℕ) → IdleTracker
turn_ended t now = record t { running_turns = wrapping_dec t.running_turns; last_activity = now }

unfoldable pub should_exit : IdleTracker → (now : ℕ) → Bool
should_exit t now =
    if t.idle_exit == 0
    then false
    else if ltb 0 t.attached_clients
    then false
    else if ltb 0 t.running_turns
    then false
    else leb t.idle_exit (now - t.last_activity)

-- A turn's number and its `Cancel`.
pub record Registration : Type 0 where
  pub id : ℕ
  pub cancel : ℕ

pub record ServerState : Type 0 where
  pub next_turn_id : ℕ
  pub aborts : Table Registration
  pub flags : List Bool
  pub idle : IdleTracker

pub record TurnSlot : Type 0 where
  pub session : String
  pub id : ℕ
  pub cancel : ℕ

-- `Cancel::new()`
unfoldable pub new_cancel : ServerState → ℕ × ServerState
new_cancel s = (length s.flags, record s { flags = s.flags ++ false ∷ [] })

-- `Cancel::cancelled` and `Cancel::cancel`
unfoldable pub cancelled : ServerState → (cancel : ℕ) → Bool
cancelled s cancel = elim (get_elem? s.flags cancel) [ none ↦ false | some flag ↦ flag ]

unfoldable pub fire : ServerState → (cancel : ℕ) → ServerState
fire s cancel = record s { flags = set s.flags cancel true }

unfoldable pub register_with :
    ServerState → (session : String) → (cancel now : ℕ) → TurnSlot × ServerState
unfolding turn_started
register_with s session cancel now =
    let id = s.next_turn_id in
    (
      record { session = session; id = id; cancel = cancel },
      record s {
        next_turn_id = wrapping_inc id;
        aborts = put s.aborts session (record { id = id; cancel = cancel });
        idle = turn_started s.idle now;
      },
    )

unfoldable pub register : ServerState → (session : String) → (now : ℕ) → TurnSlot × ServerState
unfolding register_with new_cancel
register s session now = let (cancel, s') = new_cancel s in register_with s' session cancel now

unfoldable pub release_turn : ServerState → (session : String) → (id : ℕ) → ServerState
release_turn s session id = elim (find s.aborts session) [
  | none ↦ s
  | some cur ↦ if cur.id == id then record s { aborts = remove s.aborts session } else s
]

-- `Drop` of a `TurnSlot`
unfoldable pub drop_slot : ServerState → TurnSlot → (now : ℕ) → ServerState
unfolding release_turn turn_ended
drop_slot s slot now =
    let s' = release_turn s slot.session slot.id in record s' { idle = turn_ended s'.idle now }

unfoldable pub is_turn_running : ServerState → (session : String) → Bool
is_turn_running s session = is_some (find s.aborts session)

unfoldable pub is_wanted : (wanted : Option ℕ) → ℕ → Bool
is_wanted none id = true
is_wanted (some want) id = want == id

unfoldable pub abort_turn : ServerState → (session : String) → (wanted : Option ℕ) → ServerState
unfolding is_wanted fire
abort_turn s session wanted = elim (find s.aborts session) [
  | none ↦ s
  | some cur ↦ if is_wanted wanted cur.id then fire s cur.cancel else s
]

unfoldable pub abort : ServerState → (session : String) → ServerState
unfolding abort_turn
abort s session = abort_turn s session none

unfoldable pub running_turn_id : ServerState → (session : String) → Option ℕ
running_turn_id s session = Option.map (λ (r : Registration). r.id) (find s.aborts session)

unfoldable pub get_cancel : ServerState → (session : String) → Option ℕ
get_cancel s session = Option.map (λ (r : Registration). r.cancel) (find s.aborts session)

-- `SessionSink::emit` of `TurnFinishing`
unfoldable pub emit_turn_finishing : ServerState → (session : String) → ServerState
unfolding running_turn_id release_turn
emit_turn_finishing s session = elim (running_turn_id s session) [
  | none ↦ s
  | some id ↦ release_turn s session id
]
