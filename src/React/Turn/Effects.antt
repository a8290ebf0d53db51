-- ===== src/React/Turn/Effects.antt =====
-- What `execute_turn` (crates/kn9t-react/src/turn.rs) does to the state of the run: it stores events, sends no
-- mark of a turn, and a turn that does not fail leaves no call of its own without a result.
use kn9t.Prelude.{
  String, ◌≡◌, ◌≢◌, refl, sym, ap, ◌∙◌, Bool, true, false, Option, none, some, List, [], ◌∷◌, ◌++◌,
  append_assoc, append-nil, arith,
}
use kn9t.Core.Message.{Message}
use kn9t.Core.Event.{Event}
use kn9t.React.Attempts.{ReactError}
use kn9t.React.Turn.{
  TurnOutcome, failed, panicked, RunState, Refusal, take_in, append_event, or_fail, append_all,
  and_then,
}
use kn9t.React.Turn.Answered.{stored_message, transcript, transcript-append}
use kn9t.Store.Plan.{has_orphan_tool_call}

abbrev pub is_failure : TurnOutcome → Bool
is_failure (failed e) = true
is_failure o = false

-- The store has taken `es`.
pub record Adds (st : RunState) (es : List Event) (st' : RunState) : Type 0 where
  pub live : st'.live ≡ st.live
  pub stored : st'.stored ≡ st.stored ++ es

pub Adds-trans :
    (st st' st'' : RunState) (es fs : List Event)
    → Adds st es st'
    → Adds st' fs st''
    → Adds st (es ++ fs) st''
Adds-trans st st' st'' es fs a b = record {
  live = b.live ∙ a.live;
  stored = b.stored ∙ ap (λ t. t ++ fs) a.stored ∙ append_assoc st.stored es fs;
}

pub Adds-nil : (st st' : RunState) → st'.live ≡ st.live → st'.stored ≡ st.stored → Adds st [] st'
Adds-nil st st' l s = record { live = l; stored = s ∙ sym (append-nil st.stored) }

-- Behind the messages `before`, those that the outcome's events add answer every call.
pub record IsSettled (before : List Message) (st : RunState) (r : TurnOutcome × RunState)
    : Type 0 where
  pub added : List Event
  pub adds : Adds st added r.1
  pub returned : r.0 ≢ panicked
  pub answered : is_failure r.0 ≡ false → has_orphan_tool_call (before ++ transcript added) ≡ false

module _ (before : List Message) (st : RunState) where
  pub settle_failure :
      (st' : RunState) (es : List Event) (e : ReactError)
      → Adds st es st'
      → IsSettled before st (failed e, st')
  settle_failure st' es e a = record {
    added = es;
    adds = a;
    returned = ground arith;
    answered = λ h. absurd (ground arith);
  }

  pub settle_done :
      (st' : RunState) (o : TurnOutcome)
      → o ≢ panicked
      → Adds st [] st'
      → has_orphan_tool_call before ≡ false
      → IsSettled before st (o, st')
  unfolding transcript
  settle_done st' o p a h = record {
    added = [];
    adds = a;
    returned = p;
    answered = λ _. ap has_orphan_tool_call (append-nil before) ∙ h;
  }

  pub settle_later :
      (st' : RunState) (es : List Event) (r : TurnOutcome × RunState)
      → Adds st es st'
      → IsSettled (before ++ transcript es) st' r
      → IsSettled before st r
  settle_later st' es r a s = record {
    added = es ++ s.added;
    adds = Adds-trans st st' r.1 es s.added a s.adds;
    returned = s.returned;
    answered = λ h.
        ap has_orphan_tool_call (
          ap (λ t. before ++ t) (transcript-append es s.added)
          ∙ sym (append_assoc before (transcript es) (transcript s.added)))
        ∙ s.answered h;
  }

  pub settle_and_then :
      (r : Option ReactError × RunState) (next : RunState → TurnOutcome × RunState)
      (es : List Event)
      → Adds st es r.1
      → (r.0 ≡ none → IsSettled (before ++ transcript es) r.1 (next r.1))
      → IsSettled before st (and_then r next)
  unfolding and_then
  settle_and_then (some e, st') next es a s = settle_failure st' es e a
  settle_and_then (none, st') next es a s = settle_later st' es (next st') a (s refl)

take_in_lem :
    (answer : Option String) (event : Event) (st : RunState)
    → (es : List Event) × Adds st es (take_in answer event st).1
      × ((take_in answer event st).0 ≡ none → es ≡ event ∷ [])
unfolding take_in
take_in_lem (some e) event st = ([], Adds-nil st st refl refl, λ h. absurd (ground (arith, h)))
take_in_lem none event st = (event ∷ [], record { live = refl; stored = refl }, λ _. refl)

or_fail_lem :
    (st : RunState) (m : Message) (ms : List Message) (r : Option ReactError × RunState)
    (next : RunState → Option ReactError × RunState)
    → ((es : List Event) × Adds st es r.1 × (r.0 ≡ none → es ≡ Event.message_appended 0 m ∷ []))
    → ((st' : RunState)
        → (es : List Event) × Adds st' es (next st').1 × ((next st').0 ≡ none → transcript es ≡ ms))
    → (es : List Event) × Adds st es (or_fail r next).1
      × ((or_fail r next).0 ≡ none → transcript es ≡ m ∷ ms)
unfolding or_fail transcript stored_message
or_fail_lem st m ms (some e, st') next (es, a, h) later = (es, a, λ h. absurd (ground (arith, h)))
or_fail_lem st m ms (none, st') next (es, a, h) later =
    let (fs, b, k) = later st' in
    (
      es ++ fs,
      Adds-trans st st' (next st').1 es fs a b,
      λ q. ap (λ l. transcript (l ++ fs)) (h refl) ∙ ap (λ t. m ∷ t) (k q),
    )

module _ (refuses : Refusal) where
  pub append_event_lem :
      (event : Event) (st : RunState)
      → (es : List Event) × Adds st es (append_event refuses event st).1
        × ((append_event refuses event st).0 ≡ none → es ≡ event ∷ [])
  unfolding append_event
  append_event_lem event st = take_in_lem (refuses st.stored event) event st

  pub append_all_lem :
      (ms : List Message) (st : RunState)
      → (es : List Event) × Adds st es (append_all refuses ms st).1
        × ((append_all refuses ms st).0 ≡ none → transcript es ≡ ms)
  unfolding append_all transcript
  append_all_lem [] st = ([], Adds-nil st st refl refl, λ _. refl)
  append_all_lem (m ∷ ms) st =
      or_fail_lem st m ms (append_event refuses (Event.message_appended 0 m) st)
        (append_all refuses ms) (append_event_lem (Event.message_appended 0 m) st)
        (append_all_lem ms)
