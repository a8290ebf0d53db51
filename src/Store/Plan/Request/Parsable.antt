-- ===== src/Store/Plan/Request/Parsable.antt =====
-- The arguments of the calls that a request shows (crates/kn9t-store/src/plan.rs) after the repair, and after
-- calls without a result were closed.
use Prim.Native.String.{String}
use kn9t.Prelude.{ℕ, suc, ◌≡◌, refl, Bool, true, List, [], ◌∷◌, ◌++◌, map, All, arith}
use kn9t.Core.Message.{MsgId, CallId, Content, tool_call, Message}
use kn9t.Store.Plan.{
  Salvage, repair_content, repair_unparseable_tool_args, call_ids, unanswered, closing_message,
  interrupted_result,
}
use kn9t.Store.Plan.Orphans.{Row, messages_of, closing, closed}
use kn9t.Provider.Assemble.Parsable.{is_parsable, HasParsableArgs}

module _ (parses : String → Bool) where
  abbrev pub AllParsable : List Message → Type 0
  AllParsable = All (λ (m : Message). HasParsableArgs parses m.content)

  HasParsableArgs-repaired :
      (cs : List Content)
      → parses "{}" ≡ true
      → HasParsableArgs parses (map (repair_content parses) cs)
  unfolding repair_content is_parsable
  HasParsableArgs-repaired [] h = tt
  HasParsableArgs-repaired (tool_call id name args ∷ cs) h =
      (ground arith, HasParsableArgs-repaired cs h)
  HasParsableArgs-repaired (c ∷ cs) h = (refl, HasParsableArgs-repaired cs h)

  pub AllParsable-repaired :
      (ms : List Message)
      → parses "{}" ≡ true
      → AllParsable (repair_unparseable_tool_args parses ms)
  unfolding repair_unparseable_tool_args
  AllParsable-repaired [] h = tt
  AllParsable-repaired (m ∷ ms) h =
      (HasParsableArgs-repaired m.content h, AllParsable-repaired ms h)

  HasParsableArgs-interrupted :
      (salvage : Salvage) (ids : List CallId)
      → HasParsableArgs parses (map (interrupted_result salvage) ids)
  unfolding interrupted_result is_parsable
  HasParsableArgs-interrupted salvage [] = tt
  HasParsableArgs-interrupted salvage (id ∷ ids) = (refl, HasParsableArgs-interrupted salvage ids)

  AllParsable-closing :
      (fresh_id : ℕ → MsgId) (salvage : Salvage) (i seq : ℕ) (ids : List CallId) (rest : List Row)
      → AllParsable (messages_of rest)
      → AllParsable (messages_of (closing fresh_id salvage i seq ids ++ rest))
  unfolding closing_message
  AllParsable-closing fresh_id salvage i seq [] rest h = h
  AllParsable-closing fresh_id salvage i seq (id ∷ ids) rest h =
      (HasParsableArgs-interrupted salvage (id ∷ ids), h)

  pub AllParsable-closed :
      (fresh_id : ℕ → MsgId) (salvage : Salvage) (answered : List CallId) (i : ℕ) (rows : List Row)
      → AllParsable (messages_of rows)
      → AllParsable (messages_of (closed fresh_id salvage answered i rows))
  AllParsable-closed fresh_id salvage answered i [] h = tt
  AllParsable-closed fresh_id salvage answered i (row ∷ rows) (h, hs) =
      let rest = closed fresh_id salvage answered (suc i) rows in
      (
        h,
        AllParsable-closing fresh_id salvage i row.0 (unanswered answered (call_ids row.1.content))
            rest (AllParsable-closed fresh_id salvage answered (suc i) rows hs),
      )
