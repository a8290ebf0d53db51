-- ===== src/Provider/Assemble.antt =====
-- crates/kn9t-provider-core/src/assemble.rs: the chunks of a provider's stream, folded into one message. Whether a
-- text parses as JSON (`serde_json`) is the parameter `parses`, and the fresh identifier of the message is
-- `msg_id`. A stream is the list of what its iterator yields. The live deltas that the sink gets are left
-- out. An index is a u32.
pub mod Parsable
pub mod Stream
pub mod Gate
use Prim.Native.String.{◌++◌ as append}
use kn9t.Prelude.{
  ℕ, String, Bool, true, false, is_some, Option, none, some, List, [], ◌∷◌, ◌++◌, leb, ◌==◌, str_eq,
  ◌⊎◌, inl, inr, if◌then◌else◌,
}
use kn9t.Core.Message.{MsgId, CallId, Role, Content, Message}
use kn9t.Core.Model.{ModelRef, StopReason, Tokens}
use kn9t.Plugin.Composed.{Usage}

pub data Chunk : Type 0 where
  text thinking tool_args : (idx : ℕ) (delta : String) → Chunk
  tool_call : (idx : ℕ) (id : CallId) (name : String) → Chunk
  usage : Usage → Chunk
  stop : StopReason → Chunk

pub data ProvErr : Type 0 where
  connect : String → ProvErr
  http : (status : ℕ) (body : String) → ProvErr
  stream : String → ProvErr
  context_overflow truncated : ProvErr
  decode : String → ProvErr

pub record Part : Type 0 where
  pub idx : ℕ
  pub text : String

pub record ToolAccum : Type 0 where
  pub idx : ℕ
  pub id : CallId
  pub name : String
  pub args_json : String

-- `AssembleResult`
pub record Assembled : Type 0 where
  pub message : Message
  pub usage : Usage
  pub stop : StopReason
  pub usage_reported : Bool

-- The local variables of `assemble`.
pub record Accum : Type 0 where
  pub text_parts : List Part
  pub think_parts : List Part
  pub tools : List ToolAccum
  pub usage_opt : Option Usage
  pub stop : StopReason

abbrev pub empty : Accum
empty = record {
  text_parts = [];
  think_parts = [];
  tools = [];
  usage_opt = none;
  stop = StopReason.stop;
}

-- The first part of the index grows, or a part is added.
unfoldable pub push_delta : (idx : ℕ) (delta : String) → List Part → List Part
push_delta idx delta [] = record { idx = idx; text = delta } ∷ []
push_delta idx delta (p ∷ ps) =
    let rest = push_delta idx delta ps in
    if p.idx == idx then record p { text = append p.text delta } ∷ ps else p ∷ rest

-- Arguments for an index that no call has are dropped.
unfoldable pub push_args : (idx : ℕ) (delta : String) → List ToolAccum → List ToolAccum
push_args idx delta [] = []
push_args idx delta (t ∷ ts) =
    let rest = push_args idx delta ts in
    if t.idx == idx then record t { args_json = append t.args_json delta } ∷ ts else t ∷ rest

unfoldable pub take_chunk : Accum → Chunk → Accum
unfolding push_delta push_args
take_chunk acc (Chunk.text idx delta) = record acc {
  text_parts = push_delta idx delta acc.text_parts;
}
take_chunk acc (Chunk.thinking idx delta) = record acc {
  think_parts = push_delta idx delta acc.think_parts;
}
take_chunk acc (Chunk.tool_call idx id name) = record acc {
  tools = acc.tools ++ record { idx = idx; id = id; name = name; args_json = "" } ∷ [];
}
take_chunk acc (tool_args idx delta) = record acc { tools = push_args idx delta acc.tools }
take_chunk acc (usage u) = record acc { usage_opt = some u }
take_chunk acc (stop why) = record acc { stop = why }

-- The loop over the stream, up to its first error.
unfoldable pub take_chunks : Accum → List (ProvErr ⊎ Chunk) → ProvErr ⊎ Accum
unfolding take_chunk
take_chunks acc [] = inr acc
take_chunks acc (inl e ∷ chunks) = inl e
take_chunks acc (inr chunk ∷ chunks) = take_chunks (take_chunk acc chunk) chunks

-- `sort_by_key`, which is stable.
module _ {A : Type 0} (key : A → ℕ) where
  unfoldable pub insert_by_key : A → List A → List A
  insert_by_key a [] = a ∷ []
  insert_by_key a (x ∷ xs) =
      let rest = insert_by_key a xs in if leb (key a) (key x) then a ∷ x ∷ xs else x ∷ rest

  unfoldable pub sort_by_key : List A → List A
  unfolding insert_by_key
  sort_by_key [] = []
  sort_by_key (x ∷ xs) = insert_by_key x (sort_by_key xs)

unfoldable pub blocks_of : (String → Content) → List Part → List Content
blocks_of block [] = []
blocks_of block (p ∷ ps) =
    let rest = blocks_of block ps in if str_eq p.text "" then rest else block p.text ∷ rest

unfoldable pub args_of : ToolAccum → String
args_of t = if str_eq t.args_json "" then "{}" else t.args_json

-- The calls, unless the arguments of one do not parse.
unfoldable pub calls_of : (parses : String → Bool) → List ToolAccum → ProvErr ⊎ List Content
unfolding args_of
calls_of parses [] = inr []
calls_of parses (t ∷ ts) =
    let rest = calls_of parses ts in
    if parses (args_of t)
    then elim rest [
      | inl e ↦ inl e
      | inr calls ↦ inr (Content.tool_call t.id t.name (args_of t) ∷ calls)
    ]
    else inl truncated

abbrev pub no_usage : Usage
no_usage = record {
  tokens = record { input = 0; output = 0; cache_read = 0; cache_write = 0; reasoning = 0 };
  model = record { provider = ""; id = "" };
}

-- From the sort of the text parts on.
unfoldable pub assembled : (parses : String → Bool) → MsgId → Accum → ProvErr ⊎ Assembled
unfolding sort_by_key blocks_of calls_of
assembled parses msg_id acc =
    let texts = blocks_of Content.text (sort_by_key (λ p. p.idx) acc.text_parts) in
    let thoughts =
      blocks_of (λ t. Content.thinking t none) (sort_by_key (λ p. p.idx) acc.think_parts) in
    elim (calls_of parses (sort_by_key (λ t. t.idx) acc.tools)) [
      | inl e ↦ inl e
      | inr calls ↦ inr (record {
        message = record {
          id = msg_id;
          role = Role.assistant;
          content = texts ++ (thoughts ++ calls);
          silent = false;
        };
        usage = elim acc.usage_opt [ some u ↦ u | none ↦ no_usage ];
        stop = acc.stop;
        usage_reported = is_some acc.usage_opt;
      })
    ]

unfoldable pub assemble :
    (parses : String → Bool) → MsgId → List (ProvErr ⊎ Chunk) → ProvErr ⊎ Assembled
unfolding take_chunks assembled
assemble parses msg_id chunks = elim (take_chunks empty chunks) [
  | inl e ↦ inl e
  | inr acc ↦ assembled parses msg_id acc
]
