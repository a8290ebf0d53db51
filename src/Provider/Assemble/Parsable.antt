-- ===== src/Provider/Assemble/Parsable.antt =====
-- What `assemble` (crates/kn9t-provider-core/src/assemble.rs) lets through.
use kn9t.Prelude.{
  ◌≡◌, refl, ap, ◌∙◌, String, Bool, true, false, is_some, none, some, List, [], ◌∷◌, ◌++◌, map, All,
  All-append, ◌⊎◌, inl, inr, Bool-cases, str_eq, if◌then◌else◌, arith, subst,
}
use kn9t.Core.Message.{MsgId, Role, Content, text, image, tool_call, tool_result, thinking}
use kn9t.Store.Plan.{repair_content, repair_unparseable_tool_args}
use kn9t.Provider.Assemble.{
  Chunk, ProvErr, truncated, Part, ToolAccum, Accum, empty, Assembled, no_usage, take_chunks,
  sort_by_key, blocks_of, args_of, calls_of, assembled, assemble,
}

unfoldable pub is_parsable : (parses : String → Bool) → Content → Bool
is_parsable parses (tool_call id name args) = parses args
is_parsable parses c = true

-- Of a result, if there is one.
abbrev OnOk : {A : Type 0} → (A → Type 0) → ProvErr ⊎ A → Type 0
OnOk P (inl e) = Unit
OnOk P (inr a) = P a

module _ (parses : String → Bool) where
  abbrev pub HasParsableArgs : List Content → Type 0
  HasParsableArgs = All (λ c. is_parsable parses c ≡ true)

  HasParsableArgs-blocks_of :
      (block : String → Content) (ps : List Part)
      → ((t : String) → is_parsable parses (block t) ≡ true)
      → HasParsableArgs (blocks_of block ps)
  unfolding blocks_of
  HasParsableArgs-blocks_of block [] h = tt
  HasParsableArgs-blocks_of block (p ∷ ps) h =
      let rest = HasParsableArgs-blocks_of block ps h in
      elim (Bool-cases (str_eq p.text "")) [ inl e ↦ rw e rest | inr e ↦ rw e (h p.text, rest) ]

  gate :
      (t : ToolAccum) (passes : Bool) (rest : ProvErr ⊎ List Content)
      → parses (args_of t) ≡ passes
      → OnOk HasParsableArgs rest
      → OnOk HasParsableArgs (
          if passes
          then elim rest [
            | inl e ↦ inl e
            | inr calls ↦ inr (tool_call t.id t.name (args_of t) ∷ calls)
          ]
          else inl truncated)
  unfolding is_parsable
  gate t false rest e h = tt
  gate t true (inl err) e h = tt
  gate t true (inr calls) e h = (e, h)

  OnOk-calls_of : (ts : List ToolAccum) → OnOk HasParsableArgs (calls_of parses ts)
  unfolding calls_of
  OnOk-calls_of [] = tt
  OnOk-calls_of (t ∷ ts) = gate t (parses (args_of t)) (calls_of parses ts) refl (OnOk-calls_of ts)

  -- The message around the calls.
  around :
      (msg_id : MsgId) (acc : Accum) (texts thoughts : List Content)
      (calls : ProvErr ⊎ List Content)
      → HasParsableArgs texts
      → HasParsableArgs thoughts
      → OnOk HasParsableArgs calls
      → OnOk
          (λ (r : Assembled). HasParsableArgs r.message.content)
          (elim calls [
            | inl e ↦ inl e
            | inr cs ↦ inr (record {
              message = record {
                id = msg_id;
                role = Role.assistant;
                content = texts ++ (thoughts ++ cs);
                silent = false;
              };
              usage = elim acc.usage_opt [ some u ↦ u | none ↦ no_usage ];
              stop = acc.stop;
              usage_reported = is_some acc.usage_opt;
            })
          ])
  around msg_id acc texts thoughts (inl e) p q h = tt
  around msg_id acc texts thoughts (inr cs) p q h =
      let P = λ (c : Content). is_parsable parses c ≡ true in
      All-append P texts (thoughts ++ cs) p (All-append P thoughts cs q h)

  OnOk-assembled :
      (msg_id : MsgId) (acc : Accum)
      → OnOk (λ (r : Assembled). HasParsableArgs r.message.content) (assembled parses msg_id acc)
  unfolding assembled is_parsable
  OnOk-assembled msg_id acc =
      around msg_id acc (blocks_of text (sort_by_key (λ p. p.idx) acc.text_parts))
        (blocks_of (λ t. thinking t none) (sort_by_key (λ p. p.idx) acc.think_parts))
        (calls_of parses (sort_by_key (λ t. t.idx) acc.tools))
        (HasParsableArgs-blocks_of text (sort_by_key (λ p. p.idx) acc.text_parts) (λ t. refl))
        (HasParsableArgs-blocks_of (λ t. thinking t none) (sort_by_key (λ p. p.idx) acc.think_parts)
          (λ t. refl))
        (OnOk-calls_of (sort_by_key (λ t. t.idx) acc.tools))

  after_stream :
      (msg_id : MsgId) (folded : ProvErr ⊎ Accum)
      → OnOk
          (λ (r : Assembled). HasParsableArgs r.message.content)
          (elim folded [ inl e ↦ inl e | inr acc ↦ assembled parses msg_id acc ])
  after_stream msg_id (inl e) = tt
  after_stream msg_id (inr acc) = OnOk-assembled msg_id acc

  repair_content-parsable :
      (c : Content) → is_parsable parses c ≡ true → repair_content parses c ≡ c
  unfolding repair_content is_parsable
  repair_content-parsable (tool_call id name args) h = ground (arith, h)
  repair_content-parsable (text t) h = refl
  repair_content-parsable (image sha mime) h = refl
  repair_content-parsable (tool_result id content e) h = refl
  repair_content-parsable (thinking t s) h = refl

  map-repair_content :
      (cs : List Content) → HasParsableArgs cs → map (repair_content parses) cs ≡ cs
  map-repair_content [] h = refl
  map-repair_content (c ∷ cs) (h, hs) =
      ap (λ t. t ∷ map (repair_content parses) cs) (repair_content-parsable c h)
      ∙ ap (λ t. c ∷ t) (map-repair_content cs hs)

-- Whatever a provider streams, in a message that is assembled the arguments of every tool call parse
-- as JSON, so that the repair of a request's transcript leaves the message as it is.
pub repair_unparseable_tool_args-assemble :
    (parses : String → Bool) (msg_id : MsgId) (chunks : List (ProvErr ⊎ Chunk)) (r : Assembled)
    → assemble parses msg_id chunks ≡ inr r
    → HasParsableArgs parses r.message.content
      × (repair_unparseable_tool_args parses (r.message ∷ []) ≡ r.message ∷ [])
unfolding assemble repair_unparseable_tool_args
repair_unparseable_tool_args-assemble parses msg_id chunks r e =
    let parsable : HasParsableArgs parses r.message.content =
      subst (OnOk (λ (q : Assembled). HasParsableArgs parses q.message.content)) e
        (after_stream parses msg_id (take_chunks empty chunks)) in
    (
      parsable,
      ap (λ cs. record r.message { content = cs } ∷ [])
          (map-repair_content parses r.message.content parsable),
    )
