-- ===== src/Tests/ProviderTests.antt =====
-- A stream with two interleaved texts and a call whose arguments come in two pieces, and a retry.
use kn9t.Prelude.{
  ℕ, zero, suc, ◌*◌, ◌≤◌, All, arith, ◌≡◌, refl, String, Bool, true, false, List, [], ◌∷◌, all, map,
  inl, inr, ◌⊎◌, str_eq,
}
use kn9t.Core.Message.{Role, text, tool_call}
use kn9t.Core.Model.{StopReason}
use kn9t.Store.Plan.{repair_unparseable_tool_args}
use kn9t.Provider.Assemble.{Chunk, tool_args, ProvErr, truncated, Assembled, no_usage, assemble}
use kn9t.Provider.Retry.{Backoff, with_retry_with_sink}
use kn9t.Provider.Retry.Bounded.{IsDecided, with_retry_with_sink-IsDecided}
use kn9t.Provider.Assemble.Gate.{passes, told, assemble_cases}
use kn9t.Provider.Assemble.Stream.{calls}
use kn9t.Provider.Assemble.Parsable.{HasParsableArgs, repair_unparseable_tool_args-assemble}

abbrev parses : String → Bool
parses s = str_eq s "{}"

abbrev chunks : List Chunk
chunks =
    Chunk.text 1 "b"
    ∷ Chunk.text 0 "a"
    ∷ Chunk.text 1 "c"
    ∷ Chunk.tool_call 2 "id" "read"
    ∷ tool_args 2 "{"
    ∷ tool_args 2 "}"
    ∷ Chunk.stop StopReason.tool_use
    ∷ []

abbrev streamed : List (ProvErr ⊎ Chunk)
streamed = map inr chunks

assemble_cases_example :
    ((all (passes parses) (calls [] chunks) ≡ true)
      × (assemble parses "m" streamed ≡ inr (told parses "m" chunks)))
    ⊎ ((all (passes parses) (calls [] chunks) ≡ false)
        × (assemble parses "m" streamed ≡ inl truncated))
assemble_cases_example = assemble_cases parses "m" chunks

abbrev whole : Assembled
whole = record {
  message = record {
    id = "m";
    role = Role.assistant;
    content = text "a" ∷ text "bc" ∷ tool_call "id" "read" "{}" ∷ [];
    silent = false;
  };
  usage = no_usage;
  stop = StopReason.tool_use;
  usage_reported = false;
}

assembles : assemble parses "m" streamed ≡ inr whole
unfolding assemble
assembles = refl

repair_unparseable_tool_args-assemble_example :
    HasParsableArgs parses whole.message.content
    × (repair_unparseable_tool_args parses (whole.message ∷ []) ≡ whole.message ∷ [])
repair_unparseable_tool_args-assemble_example =
    repair_unparseable_tool_args-assemble parses "m" streamed whole assembles

-- The first attempt is throttled, the second meets a refusal.
abbrev attempt : ℕ → ProvErr ⊎ String
attempt zero = inl (ProvErr.http 429 "slow down")
attempt (suc n) = inl (ProvErr.http 400 "bad request")

abbrev backoff : Backoff
backoff = record { initial_ms = 500; max_ms = 10_000 }

with_retry_with_sink-IsDecided_example :
    let r = with_retry_with_sink (λ d. 2 * d) backoff attempt 3 in
    ((k : ℕ) × IsDecided (λ d. 2 * d) backoff attempt 3 0 k r) × All (λ w. w ≤ 10_000) r.1
with_retry_with_sink-IsDecided_example =
    with_retry_with_sink-IsDecided (λ d. 2 * d) backoff attempt 3 10_000 (omega arith) (omega arith)
