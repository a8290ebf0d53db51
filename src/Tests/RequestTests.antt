-- ===== src/Tests/RequestTests.antt =====
-- A session that was killed while a call ran: its plan closes the call.
use kn9t.Prelude.{
  pos, ◌≡◌, refl, ℕ, String, true, false, Option, none, some, List, [], ◌∷◌, str_eq, if◌then◌else◌,
}
use kn9t.Core.Message.{Content, text, tool_call}
use kn9t.Core.Model.{CacheMode, ModelSpec, Thinking, ThinkingReplay}
use kn9t.Store.Database.{MessageRow, Db}
use kn9t.Store.Live.{Scratch}
use kn9t.Store.Plan.Orphans.{messages_of}
use kn9t.Store.Plan.Request.{
  Readers, RequestPlan, plan_request, get_model_spec_for_session, total_tokens,
}
use kn9t.Store.Plan.Request.Usable.{request_rows, is_due, IsUsable, plan_request-IsUsable}
use kn9t.Prelude.Table.{Table}

-- The JSON of the assistant's message is "call", and that of a user's its text. Arguments are read as "{}"
-- only.
abbrev read_content : String → Option (List Content)
read_content s = some ((if str_eq s "call" then tool_call "c" "bash" "{" else text s) ∷ [])

abbrev readers : Readers
readers = record {
  parses = λ s. str_eq s "{}";
  read_content = read_content;
  from_json = λ s. none;
  read_model = λ s. some (record { provider = "p"; id = s });
  base64 = λ bytes. "";
  threshold = λ window. 2;
  fresh_id = λ i. "m";
  closing_id = λ i. "closing";
}

abbrev spec : ModelSpec
spec = record {
  model_ref = record { provider = "p"; id = "m" };
  api_id = "m";
  ctx_window = 3;
  max_out = 1;
  thinking = Thinking.off;
  price = record { input = pos 0; output = pos 0; cache_read = pos 0; cache_write = pos 0 };
  cache = CacheMode.automatic;
  streaming = true;
  quirks = record { thinking_replay = ThinkingReplay.strip };
}

abbrev specs : Table ModelSpec
specs = ("p:m", spec) ∷ []

abbrev row : (seq : ℕ) (role content : String) → MessageRow
row seq role content = record {
  session_id = "s";
  seq = seq;
  role = role;
  content = content;
  silent = false;
}

abbrev store : Db
store = record {
  sessions =
      (
        "s",
        record {
          created_at = 0;
          cwd = "/";
          origin_session = none;
          model_at_fork = some "m";
          head_seq = 2;
        },
      )
      ∷ [];
  events = [];
  messages = row 2 "assistant" "call" ∷ row 1 "user" "list the files" ∷ [];
  usage = [];
  blobs = [];
}

abbrev scratch : Scratch
scratch = record {
  live_messages = [];
  live_tool_calls =
      record {
        session_id = "s";
        call_id = "c";
        tool = "bash";
        progress = "half";
        truncated = false;
      }
      ∷ [];
}

plan_request-IsUsable_example :
    (plan : RequestPlan) × (plan_request readers store scratch specs "s" ≡ some plan)
    × (let rows = request_rows readers store scratch "s" in
        let spec = get_model_spec_for_session readers store specs "s" in
        IsUsable readers rows
          (is_due readers spec (total_tokens readers store "s") (messages_of rows))
          plan)
plan_request-IsUsable_example = plan_request-IsUsable readers store scratch specs "s" refl
