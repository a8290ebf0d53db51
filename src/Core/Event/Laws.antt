-- ===== src/Core/Event/Laws.antt =====
-- The two kinds of event, and the stamp of the store.
use kn9t.Prelude.{ℕ, ◌≡◌, refl, true, false, ◌⊎◌, inl, inr, none, some, arith}
use kn9t.Core.Event.{
  Event, LiveEvent, turn_finishing, seq_of, is_durable, with_seq, is_internal, from_live,
  to_observable_event,
}

-- Stamping a durable event gives it the new number and drops the old one; stamping leaves a
-- transient event as it is.
pub seq_of-with_seq :
    (e : Event) (n m : ℕ)
    → ((is_durable e ≡ true)
        × (seq_of (with_seq e n) ≡ some n)
        × (with_seq (with_seq e n) m ≡ with_seq e m))
      ⊎ ((is_durable e ≡ false) × (with_seq e n ≡ e))
unfolding is_durable with_seq
seq_of-with_seq e n m = ground arith

-- What a publisher shows of a live event is never durable, and it shows every live event but
-- `TurnFinishing`.
pub to_observable_event-transient :
    (l : LiveEvent)
    → ((is_internal l ≡ true) × (to_observable_event l ≡ none))
      ⊎ ((e : Event) × (to_observable_event l ≡ some e) × (is_durable e ≡ false))
unfolding is_durable to_observable_event
to_observable_event-transient (turn_finishing turn why) = inl (refl, refl)
to_observable_event-transient l = inr (from_live l, refl, refl)
