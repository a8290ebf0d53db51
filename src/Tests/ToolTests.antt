-- ===== src/Tests/ToolTests.antt =====
-- A batch of calls under a small policy, a run of two turns around it, and two plugins that disagree.
use kn9t.Prelude.{
  ℕ, zero, suc, ◌≤◌, ◌≡◌, ◌≢◌, refl, String, true, false, Option, none, some, List, [], ◌∷◌, ◌++◌,
  inl, inr, pos, str_eq, arith, if◌then◌else◌,
}
use kn9t.Core.Message.{Role, assistant, tool_call, text}
use kn9t.Core.Model.{StopReason, Thinking, Price}
use kn9t.Core.Hook.{HookVeto, severity}
use kn9t.Plugin.Composed.{HookHost, Usage, is_replace, compose}
use kn9t.Plugin.Composed.Strictest.{severity-before_tool_call, before_tool_call-replace, worst}
use kn9t.Provider.Assemble.{Assembled}
use kn9t.React.Attempts.{Attempt, Round, attempt_loop, default_config}
use kn9t.React.Tools.{
  ToolCall, Decision, Tool, Host, WorkerEnd, Schedule, authorize, collect_tool_calls,
}
use kn9t.React.Tools.Dispatch.{run_tool_batch}
use kn9t.React.Tools.Slots.{answer_all}
use kn9t.React.Tools.Batch.{run_tool_batch-answer_all}
use kn9t.React.Turn.{Compaction, TurnInput, RunState, Refusal}
use kn9t.React.Turn.Answered.{transcript}
use kn9t.React.Turn.Settled.{IsPassive}
use kn9t.React.Turn.Run.{RunEnd, stopped, run}
use kn9t.React.Turn.Closing.{attempts, starts, marks, reason_of}
use kn9t.React.Turn.Ending.{run_terminates, run_answered}
use kn9t.Store.Plan.{has_orphan_tool_call}

abbrev read_tool : Tool String
read_tool = record {
  name = "read";
  parallel_safe = true;
  execute = λ args. inr (text args ∷ [], false);
}

abbrev write_tool : Tool String
write_tool = record {
  name = "write";
  parallel_safe = false;
  execute = λ args. inl "read-only disk";
}

abbrev before_call : String → String → Option (HookVeto String)
before_call name args =
    if str_eq name "write" then some (HookVeto.ask "writes") else some HookVeto.allow

abbrev host : Host String
host = record {
  disabled_tools = "bash" ∷ [];
  blocked = [];
  parse = λ args. if str_eq args "{" then inl "end of input" else inr args;
  is_object = λ args. true;
  value_text = λ args. args;
  before_tool_call = before_call;
  after_tool_call = λ name args content. none;
  approve = λ call reason. Decision.allow;
  registry = read_tool ∷ write_tool ∷ [];
}

-- Every worker panics.
abbrev schedule : Schedule
schedule = record {
  cancelled_at_dispatch = λ i. false;
  cancelled_at_call = λ i. false;
  worker = λ i. WorkerEnd.panicked;
}

abbrev calls : List ToolCall
calls =
    record { id = "a"; name = "read"; args_json = "{}" }
    ∷ record { id = "b"; name = "write"; args_json = "{}" }
    ∷ record { id = "c"; name = "bash"; args_json = "{}" }
    ∷ []

run_tool_batch-answer_all_example :
    run_tool_batch host schedule calls ≡ some (answer_all host schedule 0 calls)
run_tool_batch-answer_all_example = run_tool_batch-answer_all host schedule calls

abbrev usage : Usage
usage = record {
  tokens = record { input = 10; output = 5; cache_read = 0; cache_write = 0; reasoning = 0 };
  model = record { provider = "p"; id = "m" };
}

abbrev asking : Assembled
asking = record {
  message = record {
    id = "m1";
    role = assistant;
    content = tool_call "a" "read" "{}" ∷ tool_call "b" "write" "{}" ∷ [];
    silent = false;
  };
  usage = usage;
  stop = StopReason.tool_use;
  usage_reported = true;
}

abbrev done : Assembled
done = record asking {
  message = record { id = "m2"; role = assistant; content = text "done" ∷ []; silent = false };
  stop = StopReason.stop;
}

abbrev completed_with : Assembled → Round Assembled
completed_with a = record {
  plan = inr false;
  compaction = inr Attempt.truncated;
  plan_again = inr false;
  answer = inr (Attempt.completed a);
}

abbrev shortened : Compaction
shortened = record {
  replaced = record { start = 1; end = 2 };
  summary = record { id = "u"; role = Role.user; content = []; silent = false };
  handoff = none;
}

abbrev turn_with : Assembled → TurnInput String
turn_with a = record {
  rounds = λ i. completed_with a;
  host = host;
  schedule = schedule;
  compactions = shortened ∷ [];
  tool_panicked = false;
  tool_msg_id = "t";
  cancelled_after_batch = false;
  should_stop = λ reason u turn. some true;
  prepare_next = λ reason u. none;
  steering = none;
  followup = none;
}

abbrev turns : ℕ → TurnInput String
turns (suc (suc n)) = turn_with done
turns n = turn_with asking

turns-IsPassive : (n : ℕ) → IsPassive (turns n)
unfolding kn9t.React.Turn.Answered.makes_calls kn9t.Store.Plan.call_ids
turns-IsPassive zero = record { steering = refl; followup = refl; summaries = refl; calm = refl }
turns-IsPassive (suc zero) = record {
  steering = refl;
  followup = refl;
  summaries = refl;
  calm = refl;
}
turns-IsPassive (suc (suc n)) = record {
  steering = refl;
  followup = refl;
  summaries = refl;
  calm = refl;
}

abbrev accepting : Refusal
accepting stored event = none

abbrev price : Price
price = record { input = pos 1; output = pos 1; cache_read = pos 0; cache_write = pos 0 }

abbrev start : RunState
start = record {
  stored = [];
  live = [];
  model_ref = record { provider = "p"; id = "m" };
  thinking = Thinking.off;
}

run_terminates_example :
    (r : RunEnd × RunState) × (run accepting price default_config
        (some 3)
        turns
        (attempts default_config)
        4
        0
        start
      ≡ some r)
    × (r.0 ≢ RunEnd.panicked)
    × (n : ℕ) × (n ≤ 3)
    × (r.1.live ≡ start.live ++ (starts 0 n ++ marks n (reason_of r.0)))
run_terminates_example =
    run_terminates accepting price default_config (omega arith) (some 3) turns turns-IsPassive 3
      start refl

state_after : Option (RunEnd × RunState) → RunState
state_after none = start
state_after (some (end, st)) = st

final : RunState
unfolding run
final =
    state_after (run accepting price default_config none turns (attempts default_config) 4 0 start)

two_turns :
    run accepting price default_config none turns (attempts default_config) 4 0 start
    ≡ some (stopped StopReason.stop, final)
unfolding final state_after run attempt_loop collect_tool_calls run_tool_batch authorize
two_turns = refl

run_answered_example : has_orphan_tool_call (transcript final.stored) ≡ false
unfolding has_orphan_tool_call transcript
run_answered_example =
    run_answered accepting price default_config (omega arith) none turns turns-IsPassive 4 start
      StopReason.stop final two_turns refl

-- A plugin that only has an opinion on tool calls.
abbrev judge : HookVeto String → HookHost String
judge veto = record {
  before_tool_call = λ name args. veto;
  after_tool_call = λ name args content. content;
  before_request = λ ms ref instructions. ms;
  should_stop_after_turn = λ reason u turn. false;
  prepare_next_turn = λ reason u. record { model = none; thinking = none };
  get_steering = [];
  get_followup = [];
  get_api_key = λ provider. none;
}

abbrev rewriter : HookHost String
rewriter = judge (HookVeto.replace "{safe}")

severity-before_tool_call_example :
    severity (
      (compose (judge (HookVeto.ask "?") ∷ judge (HookVeto.deny "no") ∷ [])).before_tool_call "rm"
        "{}")
    ≡ worst "rm" "{}" (judge (HookVeto.ask "?") ∷ judge (HookVeto.deny "no") ∷ [])
unfolding is_replace
severity-before_tool_call_example =
    severity-before_tool_call (judge (HookVeto.ask "?") ∷ judge (HookVeto.deny "no") ∷ []) "rm" "{}"
      (refl, (refl, tt))

-- The denial of the first plugin is lost.
before_tool_call-replace_example :
    (compose (judge (HookVeto.deny "no") ∷ rewriter ∷ [])).before_tool_call "rm" "{}"
    ≡ HookVeto.replace "{safe}"
unfolding is_replace
before_tool_call-replace_example =
    before_tool_call-replace (judge (HookVeto.deny "no") ∷ []) [] rewriter "rm" "{}" "{safe}"
      (refl, tt) refl
