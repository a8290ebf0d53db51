-- ===== src/Tests/TurnTests.antt =====
-- A turn whose answers are truncated for ever, but for one overflow that the store knows nothing of.
use kn9t.Prelude.{ℕ, zero, suc, ◌+◌, ◌≡◌, false, some, inr, String}
use kn9t.React.Attempts.{Attempt, Round, LoopEnd, default_config, first_state, attempt_loop}
use kn9t.React.Attempts.Bounds.{attempt_loop_terminates}

abbrev cut_off : Round String
cut_off = record {
  plan = inr false;
  compaction = inr Attempt.truncated;
  plan_again = inr false;
  answer = inr Attempt.truncated;
}

abbrev answers : ℕ → Round String
answers (suc (suc zero)) = record cut_off { answer = inr Attempt.context_overflow }
answers n = cut_off

attempt_loop_terminates_example :
    (end : LoopEnd String) × (attempt_loop default_config answers (suc (4 + 1)) 0 first_state
      ≡ some end)
attempt_loop_terminates_example = attempt_loop_terminates default_config answers
