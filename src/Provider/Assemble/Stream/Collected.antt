-- ===== src/Provider/Assemble/Stream/Collected.antt =====
-- The loop of `assemble` (crates/kn9t-provider-core/src/assemble.rs) collects what its stream says.
use Prim.Native.String.{◌++◌ as append}
use text.Mathlib.TextLemmas.{append_assoc as text_assoc, append-nil as text-nil, nil-append}
use kn9t.Prelude.{
  append-nil, ℕ, ◌≡◌, refl, sym, ap, ◌∙◌, String, Bool, true, false, none, List, [], ◌∷◌, ◌++◌, map,
  ◌==◌, Bool-cases, inl, inr, if◌then◌else◌, arith,
}
use kn9t.Core.Message.{CallId}
use kn9t.Core.Model.{StopReason}
use kn9t.Provider.Assemble.{
  Chunk, Part, ToolAccum, Accum, empty, push_delta, push_args, take_chunk, take_chunks,
}
use kn9t.Provider.Assemble.Stream.{
  has, texts, text_at, thoughts, thinking_at, calls, args_at, last_usage, last_stop,
}
use kn9t.Provider.Assemble.Stream.Grown.{
  push_first, grown, grown-absent, grown-none, more, then_new, then_new-push_first, then_new-snoc,
}

abbrev longer : Part → String → Part
longer p t = record p { text = append p.text t }

longer-longer : (p : Part) (t u : String) → longer (longer p t) u ≡ longer p (append t u)
longer-longer p t u = ap (λ x. record p { text = x }) (text_assoc p.text t u)

abbrev more_args : ToolAccum → String → ToolAccum
more_args c t = record c { args_json = append c.args_json t }

more_args-more_args :
    (c : ToolAccum) (t u : String) → more_args (more_args c t) u ≡ more_args c (append t u)
more_args-more_args c t u = ap (λ x. record c { args_json = x }) (text_assoc c.args_json t u)

push_delta-old :
    (i : ℕ) (delta : String) (ps : List Part)
    → has (map (λ p. p.idx) ps) i ≡ true
    → push_delta i delta ps ≡ push_first (λ p. p.idx) longer (λ p t. refl) longer-longer i delta ps
unfolding push_delta push_first has
push_delta-old i delta [] h = absurd (ground (arith, h))
push_delta-old i delta (p ∷ ps) h = ground (arith, h, push_delta-old i delta ps)

push_delta-new :
    (i : ℕ) (delta : String) (ps : List Part)
    → has (map (λ p. p.idx) ps) i ≡ false
    → push_delta i delta ps ≡ ps ++ record { idx = i; text = delta } ∷ []
unfolding push_delta has
push_delta-new i delta [] h = refl
push_delta-new i delta (p ∷ ps) h = ground (arith, h, push_delta-new i delta ps)

push_args-push_first :
    (i : ℕ) (delta : String) (ts : List ToolAccum)
    → push_args i delta ts
      ≡ push_first (λ c. c.idx) more_args (λ c t. refl) more_args-more_args i delta ts
unfolding push_args push_first
push_args-push_first i delta [] = refl
push_args-push_first i delta (t ∷ ts) = ground (arith, push_args-push_first i delta ts)

abbrev parts_then : List Part → (ℕ → String) → (List ℕ → List Part) → List Part
parts_then = then_new (λ p. p.idx) longer (λ p t. refl) longer-longer

abbrev calls_then : List ToolAccum → List Chunk → List ToolAccum
calls_then ts cs =
    then_new (λ c. c.idx) more_args (λ c t. refl) more_args-more_args ts (args_at cs)
      (λ seen. calls seen cs)

calls_then-push_args :
    (i : ℕ) (delta : String) (ts : List ToolAccum) (cs : List Chunk)
    → calls_then (push_args i delta ts) cs ≡ calls_then ts (Chunk.tool_args i delta ∷ cs)
unfolding calls args_at more
calls_then-push_args i delta ts cs =
    ap (λ x. calls_then x cs) (push_args-push_first i delta ts)
    ∙ then_new-push_first (λ c. c.idx) more_args (λ c t. refl) more_args-more_args i delta ts
        (args_at cs) (λ seen. calls seen cs)

begun :
    (old : Bool) (i : ℕ) (id : CallId) (name args : String)
    → ◌≡◌ {A = ToolAccum}
        (if old
          then record { idx = i; id = id; name = name; args_json = "" }
          else more_args (record { idx = i; id = id; name = name; args_json = "" }) args)
        (record { idx = i; id = id; name = name; args_json = if old then "" else args })
begun true i id name args = refl
begun false i id name args =
    ap (λ x. record { idx = i; id = id; name = name; args_json = x }) (nil-append args)

calls_then-snoc :
    (i : ℕ) (id : CallId) (name : String) (ts : List ToolAccum) (cs : List Chunk)
    → calls_then (ts ++ record { idx = i; id = id; name = name; args_json = "" } ∷ []) cs
      ≡ calls_then ts (Chunk.tool_call i id name ∷ cs)
unfolding calls args_at
calls_then-snoc i id name ts cs =
    let n : ToolAccum = record { idx = i; id = id; name = name; args_json = "" } in
    then_new-snoc (λ c. c.idx) more_args (λ c t. refl) more_args-more_args ts n (args_at cs)
      (λ seen. calls seen cs)
    ∙ ap
        (λ c.
          grown (λ c. c.idx) more_args (λ c t. refl) more_args-more_args [] (args_at cs) ts
          ++ c ∷ calls (map (λ c. c.idx) ts ++ i ∷ []) cs)
        (begun (has (map (λ c. c.idx) ts) i) i id name (args_at cs i))

parts_then-push_delta :
    (i : ℕ) (delta : String) (ps : List Part) (f : ℕ → String) (new : List ℕ → List Part)
    → parts_then (push_delta i delta ps) f new
      ≡ parts_then ps
          (λ j. if i == j then append delta (f j) else f j)
          (λ seen.
            if has seen i
            then new seen
            else record { idx = i; text = append delta (f i) } ∷ new (seen ++ i ∷ []))
unfolding more
parts_then-push_delta i delta ps f new = elim (Bool-cases (has (map (λ p. p.idx) ps) i)) [
  | inl old ↦
      ap (λ x. parts_then x f new) (push_delta-old i delta ps old)
      ∙ then_new-push_first (λ p. p.idx) longer (λ p t. refl) longer-longer i delta ps f new
      ∙ ap
          (λ b.
            grown (λ p. p.idx) longer (λ p t. refl) longer-longer []
              (λ j. if i == j then append delta (f j) else f j) ps
            ++ (if b
                then new (map (λ p. p.idx) ps)
                else record { idx = i; text = append delta (f i) }
                  ∷ new (map (λ p. p.idx) ps ++ i ∷ [])))
          (sym old)
  | inr fresh ↦
      ap (λ x. parts_then x f new) (push_delta-new i delta ps fresh)
      ∙ then_new-snoc (λ p. p.idx) longer (λ p t. refl) longer-longer ps _ f new
      ∙ ap
          (λ b.
            grown (λ p. p.idx) longer (λ p t. refl) longer-longer [] f ps
            ++ (if b
                then record { idx = i; text = delta }
                else record { idx = i; text = append delta (f i) })
              ∷ new (map (λ p. p.idx) ps ++ i ∷ []))
          fresh
      ∙ ap
          (λ x.
            x
            ++ record { idx = i; text = append delta (f i) } ∷ new (map (λ p. p.idx) ps ++ i ∷ []))
          (grown-absent (λ p. p.idx) longer (λ p t. refl) longer-longer i delta f ps fresh)
      ∙ ap
          (λ b.
            grown (λ p. p.idx) longer (λ p t. refl) longer-longer []
              (λ j. if i == j then append delta (f j) else f j) ps
            ++ (if b
                then new (map (λ p. p.idx) ps)
                else record { idx = i; text = append delta (f i) }
                  ∷ new (map (λ p. p.idx) ps ++ i ∷ [])))
          (sym fresh)
]

-- The variables of the loop once the stream has ended.
abbrev collected_from : Accum → List Chunk → Accum
collected_from acc cs = record {
  text_parts = parts_then acc.text_parts (text_at cs) (λ seen. texts seen cs);
  think_parts = parts_then acc.think_parts (thinking_at cs) (λ seen. thoughts seen cs);
  tools = calls_then acc.tools cs;
  usage_opt = last_usage acc.usage_opt cs;
  stop = last_stop acc.stop cs;
}

collected_from-take_chunk :
    (acc : Accum) (c : Chunk) (cs : List Chunk)
    → collected_from (take_chunk acc c) cs ≡ collected_from acc (c ∷ cs)
unfolding take_chunk texts text_at thoughts thinking_at calls args_at last_usage last_stop
collected_from-take_chunk acc (Chunk.text i delta) cs =
    ap (λ x. record (collected_from acc cs) { text_parts = x })
      (parts_then-push_delta i delta acc.text_parts (text_at cs) (λ seen. texts seen cs))
collected_from-take_chunk acc (Chunk.thinking i delta) cs =
    ap (λ x. record (collected_from acc cs) { think_parts = x })
      (parts_then-push_delta i delta acc.think_parts (thinking_at cs) (λ seen. thoughts seen cs))
collected_from-take_chunk acc (Chunk.tool_call i id name) cs =
    ap (λ x. record (collected_from acc cs) { tools = x }) (calls_then-snoc i id name acc.tools cs)
collected_from-take_chunk acc (Chunk.tool_args i delta) cs =
    ap (λ x. record (collected_from acc cs) { tools = x })
      (calls_then-push_args i delta acc.tools cs)
collected_from-take_chunk acc (Chunk.usage u) cs = refl
collected_from-take_chunk acc (Chunk.stop why) cs = refl

collected_from-[] : (acc : Accum) → collected_from acc [] ≡ acc
unfolding texts text_at thoughts thinking_at calls args_at last_usage last_stop
collected_from-[] acc =
    let same = λ (ps : List Part).
      append-nil (grown (λ p. p.idx) longer (λ p t. refl) longer-longer [] (λ i. "") ps)
      ∙ grown-none (λ p. p.idx) longer (λ p t. refl) longer-longer
          (λ p. ap (λ x. record p { text = x }) (text-nil p.text)) [] ps in
    ap (λ x. record (collected_from acc []) { text_parts = x }) (same acc.text_parts)
    ∙ ap (λ x. record (collected_from acc []) { text_parts = acc.text_parts; think_parts = x })
        (same acc.think_parts)
    ∙ ap (λ x. record acc { tools = x })
        (append-nil
            (grown (λ c. c.idx) more_args (λ c t. refl) more_args-more_args [] (λ i. "") acc.tools)
          ∙ grown-none (λ c. c.idx) more_args (λ c t. refl) more_args-more_args
              (λ c. ap (λ x. record c { args_json = x }) (text-nil c.args_json)) [] acc.tools)

abbrev pub said : List Chunk → Accum
said cs = record {
  text_parts = texts [] cs;
  think_parts = thoughts [] cs;
  tools = calls [] cs;
  usage_opt = last_usage none cs;
  stop = last_stop StopReason.stop cs;
}

take_chunks-collected_from :
    (acc : Accum) (cs : List Chunk) → take_chunks acc (map inr cs) ≡ inr (collected_from acc cs)
unfolding take_chunks
take_chunks-collected_from acc [] = ap inr (sym (collected_from-[] acc))
take_chunks-collected_from acc (c ∷ cs) =
    take_chunks-collected_from (take_chunk acc c) cs ∙ ap inr (collected_from-take_chunk acc c cs)

-- The loop collects what the stream says.
pub take_chunks-said : (cs : List Chunk) → take_chunks empty (map inr cs) ≡ inr (said cs)
unfolding grown
take_chunks-said cs = take_chunks-collected_from empty cs
