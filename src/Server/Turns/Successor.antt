-- ===== src/Server/Turns/Successor.antt =====
-- A turn that is not over when the next one of its session is registered
-- (crates/kn9t-server/src/turn.rs, bus.rs). A prompt asks whether a turn is running before a thread is
-- spawned that registers it, so that two prompts can both pass.
use kn9t.Prelude.{ℕ, ◌<◌, ◌≡◌, ◌≢◌, length, refl, String, false, some, eq_refl, arith}
use kn9t.Prelude.Table.{find, find-put, find-remove}
use kn9t.Server.Turns.{
  u64_mod, ServerState, Registration, TurnSlot, register, release_turn, drop_slot, abort_turn,
  is_turn_running, running_turn_id, emit_turn_finishing,
}

module _ (s : ServerState) (session : String) (cur : Registration)
    (found : find s.aborts session ≡ some cur) where
  release_turn-stale : (id : ℕ) → cur.id ≢ id → release_turn s session id ≡ s
  unfolding release_turn
  release_turn-stale id h = ground arith

  drop_slot-stale :
      (slot : TurnSlot) (now : ℕ)
      → slot.session ≡ session
      → cur.id ≢ slot.id
      → running_turn_id (drop_slot s slot now) session ≡ some cur.id
  unfolding drop_slot running_turn_id
  drop_slot-stale slot now e h = ground (arith, found)

  abort_turn-stale : (id : ℕ) → cur.id ≢ id → abort_turn s session (some id) ≡ s
  unfolding abort_turn
  abort_turn-stale id h = ground arith

  emit_turn_finishing-absent : is_turn_running (emit_turn_finishing s session) session ≡ false
  unfolding is_turn_running emit_turn_finishing
  emit_turn_finishing-absent = ground (arith, find-remove s.aborts session session, eq_refl session)

find-registered :
    (s : ServerState) (session : String) (now : ℕ)
    → find (register s session now).1.aborts session
      ≡ some
          (let slot = (register s session now).0 in record { id = slot.id; cancel = slot.cancel })
unfolding register
find-registered s session now =
    let entry : Registration = record { id = s.next_turn_id; cancel = length s.flags } in
    ground (arith, find-put s.aborts session session entry, eq_refl session)

successor_id :
    (s : ServerState) (session : String) (t1 t2 : ℕ)
    → s.next_turn_id < u64_mod
    → (register (register s session t1).1 session t2).0.id ≢ (register s session t1).0.id
unfolding register
successor_id s session t1 t2 h = omega arith

-- Two turns of one session, the first not yet over.
module _ (s : ServerState) (session : String) (t1 t2 : ℕ) where
  abbrev pub first_turn : TurnSlot
  first_turn = (register s session t1).0

  abbrev pub second_turn : TurnSlot
  second_turn = (register (register s session t1).1 session t2).0

  abbrev pub both_registered : ServerState
  both_registered = (register (register s session t1).1 session t2).1

  -- While there are fewer than 2^64 turns, a turn that its successor has displaced leaves it alone
  -- in two ways: when the guard of the first is dropped, the second is still registered, and an abort that
  -- names the first changes nothing. But when the first says that it is finishing, the second,
  -- which still runs, is deregistered.
  pub displaced_turn_cases :
      (now : ℕ)
      → s.next_turn_id < u64_mod
      → (running_turn_id (drop_slot both_registered first_turn now) session ≡ some second_turn.id)
        × (abort_turn both_registered session (some first_turn.id) ≡ both_registered)
        × (is_turn_running (emit_turn_finishing both_registered session) session ≡ false)
  displaced_turn_cases now h =
      let found = find-registered (register s session t1).1 session t2 in
      let differs = successor_id s session t1 t2 h in
      (
        drop_slot-stale both_registered session _ found first_turn now (unfold register in refl)
            differs,
        abort_turn-stale both_registered session _ found first_turn.id differs,
        emit_turn_finishing-absent both_registered session _ found,
      )
