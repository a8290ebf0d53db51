-- ===== src/Server/Turns/Live.antt =====
-- The turns of a server (crates/kn9t-server/src/turn.rs, state.rs): whatever happens in whatever order, what is
-- registered is a live turn, and the idle accounting counts the live turns.
use kn9t.Prelude.{
  ℕ, suc, ◌+◌, ◌-◌, ◌%◌, ◌<◌, ◌≡◌, refl, sym, ap, ◌∙◌, ◌⊎◌, inl, inr, Option-cases, String, Bool,
  true, false, ◌&&◌, Option, some, List, [], ◌∷◌, ◌++◌, length, length-append, any, any-append,
  str_eq, eq_iff, ◌==◌, arith,
}
use kn9t.Prelude.Table.{find, find-remove, find-put}
use kn9t.Server.Turns.{
  u64_mod, IdleTracker, client_attached, client_detached, turn_started, Registration, ServerState,
  TurnSlot, register, release_turn, drop_slot, turn_ended, abort_turn, is_turn_running,
  register_with, new_cancel, touch,
}

-- The server with the guards that its threads hold and its attached clients.
pub record World : Type 0 where
  pub state : ServerState
  pub slots : List TurnSlot
  pub clients : ℕ

abbrev pub started_up : (idle_exit now : ℕ) → World
started_up idle_exit now = record {
  state = record {
    next_turn_id = 1;
    aborts = [];
    flags = [];
    idle = record {
      attached_clients = 0;
      running_turns = 0;
      last_activity = now;
      idle_exit = idle_exit;
    };
  };
  slots = [];
  clients = 0;
}

abbrev with_idle : ServerState → IdleTracker → ServerState
with_idle s idle = record s { idle = idle }

-- A turn starts, with a handle of its own or with one that it adopts, a loop says that it is
-- finishing, a thread drops its guard, someone aborts, a request comes, a client attaches by
-- `GET /attach` or goes. `SessionSink::emit` reads the number of the turn and releases it under two
-- locks: whatever number it has read, only the release is a step.
pub data Step : World → World → Type 0 where
  started :
      (w : World) (session : String) (now : ℕ)
      → Step w (record w {
        state = (register w.state session now).1;
        slots = (register w.state session now).0 ∷ w.slots;
      })
  adopted :
      (w : World) (session : String) (cancel now : ℕ)
      → Step w (record w {
        state = (register_with w.state session cancel now).1;
        slots = (register_with w.state session cancel now).0 ∷ w.slots;
      })
  finishing :
      (w : World) (session : String) (id : ℕ)
      → Step w (record w { state = release_turn w.state session id })
  touched :
      (w : World) (now : ℕ)
      → Step w (record w { state = with_idle w.state (touch w.state.idle now) })
  dropped :
      (w : World) (before : List TurnSlot) (slot : TurnSlot) (behind : List TurnSlot) (now : ℕ)
      → w.slots ≡ before ++ slot ∷ behind
      → Step w (record w { state = drop_slot w.state slot now; slots = before ++ behind })
  aborted :
      (w : World) (session : String) (wanted : Option ℕ)
      → Step w (record w { state = abort_turn w.state session wanted })
  attached :
      (w : World) (now : ℕ)
      → Step w (record w {
        state = with_idle w.state (client_attached w.state.idle now);
        clients = w.clients + 1;
      })
  detached :
      (w : World) (now : ℕ)
      → 0 < w.clients
      → Step w (record w {
        state = with_idle w.state (client_detached w.state.idle now);
        clients = w.clients - 1;
      })

pub data Reach (from : World) : World → Type 0 where
  here : Reach from from
  next : {v w : World} → Reach from v → Step v w → Reach from w

abbrev is_slot : (session : String) → Registration → TurnSlot → Bool
is_slot session reg slot =
    str_eq slot.session session && (slot.id == reg.id && (slot.cancel == reg.cancel))

pub record IsSound (w : World) : Type 0 where
  pub running : w.state.idle.running_turns ≡ length w.slots % u64_mod
  pub attached : w.state.idle.attached_clients ≡ w.clients % u64_mod
  pub alive :
      (session : String) (reg : Registration)
      → find w.state.aborts session ≡ some reg
      → any (is_slot session reg) w.slots ≡ true

find-release_turn :
    (s : ServerState) (slot : TurnSlot) (session : String) (reg : Registration)
    → find (release_turn s slot.session slot.id).aborts session ≡ some reg
    → (find s.aborts session ≡ some reg) × (is_slot session reg slot ≡ false)
unfolding release_turn
find-release_turn s slot session reg h =
    ground (arith, find-remove s.aborts slot.session session, eq_iff slot.session session)

inc_mod : (a n : ℕ) → a ≡ n % u64_mod → (a + 1) % u64_mod ≡ suc n % u64_mod
inc_mod a n h = omega arith

dec_mod : (a n : ℕ) → a ≡ suc n % u64_mod → (a + u64_mod - 1) % u64_mod ≡ n % u64_mod
dec_mod a n h = omega arith

idle-release :
    (s : ServerState) (session : String) (id : ℕ) → (release_turn s session id).idle ≡ s.idle
unfolding release_turn
idle-release s session id = ground arith

idle-abort :
    (s : ServerState) (session : String) (wanted : Option ℕ)
    → (abort_turn s session wanted).idle ≡ s.idle
unfolding abort_turn
idle-abort s session wanted = ground arith

aborts-abort :
    (s : ServerState) (session : String) (wanted : Option ℕ)
    → (abort_turn s session wanted).aborts ≡ s.aborts
unfolding abort_turn
aborts-abort s session wanted = ground arith

find-finishing :
    (s : ServerState) (session j : String) (id : ℕ) (reg : Registration)
    → find (release_turn s session id).aborts j ≡ some reg
    → find s.aborts j ≡ some reg
unfolding release_turn
find-finishing s session j id reg h = ground (arith, find-remove s.aborts session j)

find-register_with :
    (s : ServerState) (session j : String) (cancel now : ℕ) (reg : Registration)
    → find (register_with s session cancel now).1.aborts j ≡ some reg
    → (is_slot j reg (register_with s session cancel now).0 ≡ true) ⊎ (find s.aborts j ≡ some reg)
unfolding register_with
find-register_with s session j cancel now reg h =
    let entry : Registration = record { id = s.next_turn_id; cancel = cancel } in
    ground (arith, find-put s.aborts session j entry, eq_iff session j)

register_with-IsSound :
    (w : World) (session : String) (cancel now : ℕ)
    → IsSound w
    → IsSound (record w {
      state = (register_with w.state session cancel now).1;
      slots = (register_with w.state session cancel now).0 ∷ w.slots;
    })
register_with-IsSound w session cancel now v = record {
  running = (unfold register_with turn_started in inc_mod _ _ v.running);
  attached = (unfold register_with turn_started in v.attached);
  alive = λ j reg h. elim (find-register_with w.state session j cancel now reg h) [
    | inl own ↦ rw own refl
    | inr old ↦ ground (arith, v.alive j reg old)
  ];
}

register-IsSound :
    (w : World) (session : String) (now : ℕ)
    → IsSound w
    → IsSound (record w {
      state = (register w.state session now).1;
      slots = (register w.state session now).0 ∷ w.slots;
    })
unfolding register new_cancel
register-IsSound w session now v =
    let (cancel, s) = new_cancel w.state in
    register_with-IsSound (record w { state = s }) session cancel now
      (record { running = v.running; attached = v.attached; alive = v.alive })

touched-IsSound :
    (w : World) (now : ℕ)
    → IsSound w
    → IsSound (record w { state = with_idle w.state (touch w.state.idle now) })
unfolding touch
touched-IsSound w now v = record { running = v.running; attached = v.attached; alive = v.alive }

finishing-IsSound :
    (w : World) (session : String) (id : ℕ)
    → IsSound w
    → IsSound (record w { state = release_turn w.state session id })
finishing-IsSound w session id v =
    let idle = idle-release w.state session id in
    record {
      running = ap (λ (i : IdleTracker). i.running_turns) idle ∙ v.running;
      attached = ap (λ (i : IdleTracker). i.attached_clients) idle ∙ v.attached;
      alive = λ j reg h. v.alive j reg (find-finishing w.state session j id reg h);
    }

any-without :
    {A : Type 0} (p : A → Bool) (before behind : List A) (x : A)
    → any p (before ++ x ∷ behind) ≡ true
    → p x ≡ false
    → any p (before ++ behind) ≡ true
any-without p before behind x h e =
    ground (arith, any-append p before (x ∷ behind), any-append p before behind)

idle-drop :
    (s : ServerState) (slot : TurnSlot) (now : ℕ)
    → (drop_slot s slot now).idle ≡ turn_ended s.idle now
unfolding drop_slot
idle-drop s slot now = ground arith

aborts-drop :
    (s : ServerState) (slot : TurnSlot) (now : ℕ)
    → (drop_slot s slot now).aborts ≡ (release_turn s slot.session slot.id).aborts
unfolding drop_slot
aborts-drop s slot now = refl

running-ended :
    (t : IdleTracker) (now n : ℕ)
    → t.running_turns ≡ suc n % u64_mod
    → (turn_ended t now).running_turns ≡ n % u64_mod
unfolding turn_ended
running-ended t now n h = dec_mod t.running_turns n h

attached-ended :
    (t : IdleTracker) (now : ℕ) → (turn_ended t now).attached_clients ≡ t.attached_clients
unfolding turn_ended
attached-ended t now = refl

dropped-IsSound :
    (w : World) (before : List TurnSlot) (slot : TurnSlot) (behind : List TurnSlot) (now : ℕ)
    → w.slots ≡ before ++ slot ∷ behind
    → IsSound w
    → IsSound (record w { state = drop_slot w.state slot now; slots = before ++ behind })
dropped-IsSound w before slot behind now e v =
    let s = w.state in
    let idle = idle-drop s slot now in
    let lengths : length w.slots ≡ suc (length (before ++ behind)) =
      omega
        (arith, ap length e, length-append before (slot ∷ behind), length-append before behind) in
    record {
      running =
          ap (λ (i : IdleTracker). i.running_turns) idle
          ∙ running-ended s.idle now _ (v.running ∙ ap (λ n. n % u64_mod) lengths);
      attached =
          ap (λ (i : IdleTracker). i.attached_clients) idle
          ∙ attached-ended s.idle now
          ∙ v.attached;
      alive = λ j reg h.
          let (old, differs) = find-release_turn s slot j reg (rw (aborts-drop s slot now) at h) in
          any-without (is_slot j reg) before behind slot (rw e at (v.alive j reg old)) differs;
    }

aborted-IsSound :
    (w : World) (session : String) (wanted : Option ℕ)
    → IsSound w
    → IsSound (record w { state = abort_turn w.state session wanted })
aborted-IsSound w session wanted v =
    let idle = idle-abort w.state session wanted in
    record {
      running = ap (λ (i : IdleTracker). i.running_turns) idle ∙ v.running;
      attached = ap (λ (i : IdleTracker). i.attached_clients) idle ∙ v.attached;
      alive = λ j reg h.
          v.alive j reg (sym (ap (λ t. find t j) (aborts-abort w.state session wanted)) ∙ h);
    }

attached-IsSound :
    (w : World) (now : ℕ)
    → IsSound w
    → IsSound (record w {
      state = with_idle w.state (client_attached w.state.idle now);
      clients = w.clients + 1;
    })
unfolding client_attached
attached-IsSound w now v = record {
  running = v.running;
  attached = omega (arith, v.attached);
  alive = v.alive;
}

detached-IsSound :
    (w : World) (now : ℕ)
    → 0 < w.clients
    → IsSound w
    → IsSound (record w {
      state = with_idle w.state (client_detached w.state.idle now);
      clients = w.clients - 1;
    })
unfolding client_detached
detached-IsSound w now h v = record {
  running = v.running;
  attached = omega (arith, v.attached);
  alive = v.alive;
}

Step-IsSound : {v w : World} → Step v w → IsSound v → IsSound w
Step-IsSound (started w session now) s = register-IsSound w session now s
Step-IsSound (adopted w session cancel now) s = register_with-IsSound w session cancel now s
Step-IsSound (finishing w session id) s = finishing-IsSound w session id s
Step-IsSound (touched w now) s = touched-IsSound w now s
Step-IsSound (dropped w before slot behind now e) s = dropped-IsSound w before slot behind now e s
Step-IsSound (aborted w session wanted) s = aborted-IsSound w session wanted s
Step-IsSound (attached w now) s = attached-IsSound w now s
Step-IsSound (detached w now h) s = detached-IsSound w now h s

pub Reach-IsSound : {v w : World} → IsSound v → Reach v w → IsSound w
Reach-IsSound s here = s
Reach-IsSound s (next r st) = Step-IsSound st (Reach-IsSound s r)

pub started_up-IsSound : (idle_exit now : ℕ) → IsSound (started_up idle_exit now)
unfolding find
started_up-IsSound idle_exit now = record {
  running = omega arith;
  attached = omega arith;
  alive = λ session reg h. cc;
}

any-session :
    (session : String) (reg : Registration) (slots : List TurnSlot)
    → any (is_slot session reg) slots ≡ true
    → any (λ (x : TurnSlot). str_eq x.session session) slots ≡ true
any-session session reg [] h = cc
any-session session reg (x ∷ xs) h = ground (arith, any-session session reg xs)

-- Whatever turns have started and ended, finished or been aborted, in whatever order: a session of
-- which no thread holds a turn is not taken for running, so that its next prompt is not refused.
pub Reach-not_wedged :
    {w : World} (idle_exit now : ℕ) (session : String)
    → Reach (started_up idle_exit now) w
    → any (λ (x : TurnSlot). str_eq x.session session) w.slots ≡ false
    → is_turn_running w.state session ≡ false
unfolding is_turn_running
Reach-not_wedged {w} idle_exit now session r gone =
    let v = Reach-IsSound (started_up-IsSound idle_exit now) r in
    elim (Option-cases (find w.state.aborts session)) [
      | inl absent ↦ rw absent
      | inr (reg, found) ↦
          absurd (ground (arith, any-session session reg w.slots (v.alive session reg found), gone))
    ]
