-- ===== src/Provider/Assemble/Stream.antt =====
-- What a stream says, told without the loop of `assemble` (crates/kn9t-provider-core/src/assemble.rs): for each
-- index the deltas of it, one after another.
mod Grown
pub mod Collected
use Prim.Native.String.{◌++◌ as append}
use text.Mathlib.TextLemmas.{append_assoc as text_assoc, append-nil as text-nil, nil-append}
use kn9t.Prelude.{
  any-append, append_assoc, append-nil, map-append, ℕ, ◌≡◌, refl, sym, ap, ◌∙◌, String, Bool, true,
  false, ◌||◌, Option, none, some, List, [], ◌∷◌, ◌++◌, map, any, ◌==◌, Bool-cases, inl, inr,
  if◌then◌else◌, arith, ◌⊎◌,
}
use kn9t.Core.Message.{CallId}
use kn9t.Core.Model.{StopReason}
use kn9t.Plugin.Composed.{Usage}
use kn9t.Provider.Assemble.{
  Chunk, ProvErr, Part, ToolAccum, Accum, empty, push_delta, push_args, take_chunk, take_chunks,
}

unfoldable pub has : (seen : List ℕ) → ℕ → Bool
has seen i = any (λ j. j == i) seen

-- The last stop reason and the last usage.
unfoldable pub last_stop : StopReason → List Chunk → StopReason
last_stop why [] = why
last_stop why (Chunk.stop w ∷ cs) = last_stop w cs
last_stop why (c ∷ cs) = last_stop why cs

unfoldable pub last_usage : Option Usage → List Chunk → Option Usage
last_usage u [] = u
last_usage u (Chunk.usage v ∷ cs) = last_usage (some v) cs
last_usage u (c ∷ cs) = last_usage u cs

-- All deltas of an index: of text, of thinking, of arguments.
unfoldable pub text_at : List Chunk → ℕ → String
text_at [] i = ""
text_at (Chunk.text idx delta ∷ cs) i =
    if idx == i then append delta (text_at cs i) else text_at cs i
text_at (c ∷ cs) i = text_at cs i

unfoldable pub thinking_at : List Chunk → ℕ → String
thinking_at [] i = ""
thinking_at (Chunk.thinking idx delta ∷ cs) i =
    if idx == i then append delta (thinking_at cs i) else thinking_at cs i
thinking_at (c ∷ cs) i = thinking_at cs i

unfoldable pub args_at : List Chunk → ℕ → String
args_at [] i = ""
args_at (Chunk.tool_args idx delta ∷ cs) i =
    if idx == i then append delta (args_at cs i) else args_at cs i
args_at (c ∷ cs) i = args_at cs i

-- One text for each index, in the order in which the indices come up.
unfoldable pub texts : (seen : List ℕ) → List Chunk → List Part
texts seen [] = []
texts seen (Chunk.text idx delta ∷ cs) =
    if has seen idx
    then texts seen cs
    else record { idx = idx; text = append delta (text_at cs idx) } ∷ texts (seen ++ idx ∷ []) cs
texts seen (c ∷ cs) = texts seen cs

unfoldable pub thoughts : (seen : List ℕ) → List Chunk → List Part
thoughts seen [] = []
thoughts seen (Chunk.thinking idx delta ∷ cs) =
    if has seen idx
    then thoughts seen cs
    else record { idx = idx; text = append delta (thinking_at cs idx) }
      ∷ thoughts (seen ++ idx ∷ []) cs
thoughts seen (c ∷ cs) = thoughts seen cs

-- Every call that is begun, with the arguments of its index that come after it; a later call under the
-- index of an earlier one gets none.
unfoldable pub calls : (seen : List ℕ) → List Chunk → List ToolAccum
calls seen [] = []
calls seen (Chunk.tool_call idx id name ∷ cs) =
    record {
      idx = idx;
      id = id;
      name = name;
      args_json = if has seen idx then "" else args_at cs idx;
    }
    ∷ calls (seen ++ idx ∷ []) cs
calls seen (c ∷ cs) = calls seen cs
