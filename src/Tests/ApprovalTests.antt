-- ===== src/Tests/ApprovalTests.antt =====
-- A user allows one command for a session, and is asked for another that times out.
use kn9t.Prelude.{
  ℕ, ◌≡◌, refl, ap, ◌||◌, ◌⊎◌, String, Bool, true, false, Option, none, some, List, [], ◌∷◌, any,
  arith, ◌<◌,
}
use kn9t.Prelude.Numbered.{find}
use kn9t.React.Tools.{ToolCall, Decision}
use kn9t.Server.Approval.{
  Json, Approvals, fingerprint, is_approved, is_allow, effective_scope, resolve_approval,
}
use kn9t.Server.Approval.Wait.{Moment, answer, ask, is_expired, request}
use kn9t.Server.Approval.Slots.{allows, IsBounded}
use kn9t.Server.Approval.Scopes.{granted, resolve_approval-is_approved}
use kn9t.Server.Approval.Consent.{request-allow, request_ends}

-- Every text is a JSON string.
abbrev plain_json : Json
plain_json = record {
  Value = String;
  parse = λ s. some s;
  get = λ v key. none;
  as_str = λ v. some v;
}

abbrev nothing_asked : Approvals
nothing_asked = record {
  next_id = 1;
  slots = [];
  inner = [];
  meta = [];
  cache = record { session = []; persistent = [] };
}

abbrev listing : ToolCall
listing = record { id = "c"; name = "bash"; args_json = " ls " }

-- Someone answers another question, then this one.
abbrev moments : List Moment
moments =
    record { before = ask "t" "read" "x" ∷ answer 2 "allow" none ∷ []; cancelled = false; now = 1 }
    ∷ record { before = answer 1 "allow" (some "session") ∷ []; cancelled = false; now = 2 }
    ∷ []

abbrev answered : Option Decision × Approvals
answered = request plain_json nothing_asked listing "s" (some 9) moments

nothing_asked-IsBounded : IsBounded nothing_asked
unfolding find
nothing_asked-IsBounded j p h = cc

allowed : answered.0 ≡ some Decision.allow
unfolding request kn9t.Prelude.Table.find find kn9t.Prelude.Numbered.put
allowed = refl

request-allow_example :
    (is_approved nothing_asked.cache (some "s") (fingerprint plain_json listing) ≡ true)
    ⊎ (any (λ (m : Moment). any (allows 1) m.before) moments ≡ true)
request-allow_example =
    request-allow plain_json nothing_asked listing "s" (some 9) moments nothing_asked-IsBounded
      allowed

abbrev silence : List Moment
silence =
    record { before = ask "t" "read" "x" ∷ answer 2 "allow" none ∷ []; cancelled = false; now = 1 }
    ∷ record { before = []; cancelled = false; now = 9 }
    ∷ []

request_ends_example :
    (d : Decision) × (s' : Approvals) × (request plain_json nothing_asked listing "s"
        (some 9)
        silence
      ≡ (some d, s'))
    × ((d ≡ Decision.allow) × (s' ≡ nothing_asked)
        ⊎ (find s'.inner 1 ≡ none) × (find s'.meta 1 ≡ none))
unfolding is_expired
request_ends_example = request_ends plain_json nothing_asked listing "s" (some 9) silence refl

abbrev waiting : Approvals
waiting = record nothing_asked {
  slots = none ∷ [];
  inner = (1, 0) ∷ [];
  meta = (1, record { fingerprint = "bash:ls"; session_id = "s"; tool = "bash" }) ∷ [];
}

resolve_approval-is_approved_example :
    is_approved (resolve_approval waiting 1 "allow" (some "session")).1.cache (some "s") "bash:ls"
    ≡ (granted waiting 1 (is_allow "allow") (effective_scope "allow" (some "session")) "s" "bash:ls"
        || is_approved waiting.cache (some "s") "bash:ls")
resolve_approval-is_approved_example =
    resolve_approval-is_approved waiting 1 "allow" (some "session") "s" "bash:ls"
