-- ===== src/Provider/Assemble/Gate.antt =====
-- When `assemble` (crates/kn9t-provider-core/src/assemble.rs) returns a message.
use kn9t.Prelude.{
  ℕ, ◌≡◌, refl, sym, ap, ◌∙◌, String, Bool, true, false, ◌&&◌, is_some, none, some, List, [], ◌∷◌,
  ◌++◌, all, map, ◌⊎◌, inl, inr, Bool-cases, arith,
}
use kn9t.Core.Message.{MsgId, Role, Content, text, thinking, tool_call}
use kn9t.Core.Model.{StopReason}
use kn9t.Provider.Assemble.Stream.{texts, thoughts, calls, last_stop, last_usage}
use kn9t.Provider.Assemble.Stream.Collected.{take_chunks-said}
use kn9t.Provider.Assemble.{
  Chunk, truncated, ToolAccum, Assembled, insert_by_key, sort_by_key, blocks_of, no_usage, args_of,
  calls_of, assembled, assemble,
}

module _ {A : Type 0} (key : A → ℕ) (p : A → Bool) where
  all-insert_by_key : (x : A) (xs : List A) → all p (insert_by_key key x xs) ≡ (p x && all p xs)
  unfolding insert_by_key
  all-insert_by_key x [] = refl
  all-insert_by_key x (y ∷ ys) = ground (arith, all-insert_by_key x ys)

  all-sort_by_key : (xs : List A) → all p (sort_by_key key xs) ≡ all p xs
  unfolding sort_by_key
  all-sort_by_key [] = refl
  all-sort_by_key (x ∷ xs) =
      all-insert_by_key x (sort_by_key key xs) ∙ ap (λ b. p x && b) (all-sort_by_key xs)

module _ (parses : String → Bool) where
  abbrev pub passes : ToolAccum → Bool
  passes t = parses (args_of t)

  abbrev pub block_of : ToolAccum → Content
  block_of t = tool_call t.id t.name (args_of t)

  calls_of_cases :
      (ts : List ToolAccum)
      → ((all passes ts ≡ true) × (calls_of parses ts ≡ inr (map block_of ts)))
        ⊎ ((all passes ts ≡ false) × (calls_of parses ts ≡ inl truncated))
  unfolding calls_of
  calls_of_cases [] = inl (refl, refl)
  calls_of_cases (t ∷ ts) = elim (Bool-cases (parses (args_of t))) [
    | inr e ↦ inr (ground (arith, e), ground (arith, e))
    | inl e ↦ elim (calls_of_cases ts) [
      | inl (h, c) ↦ inl (ground (arith, e, h), ground (arith, e, c))
      | inr (h, c) ↦ inr (ground (arith, e, h), ground (arith, e, c))
    ]
  ]

  -- The message that a stream tells.
  abbrev pub told : MsgId → List Chunk → Assembled
  told msg_id cs = record {
    message = record {
      id = msg_id;
      role = Role.assistant;
      content =
          blocks_of text (sort_by_key (λ p. p.idx) (texts [] cs))
          ++ (blocks_of (λ t. thinking t none) (sort_by_key (λ p. p.idx) (thoughts [] cs))
              ++ map block_of (sort_by_key (λ t. t.idx) (calls [] cs)));
      silent = false;
    };
    usage = elim (last_usage none cs) [ some u ↦ u | none ↦ no_usage ];
    stop = last_stop StopReason.stop cs;
    usage_reported = is_some (last_usage none cs);
  }

  -- Of a stream without an error a message is assembled exactly if the arguments of every call that
  -- it begins parse as JSON, as far as they came, with no arguments read as an empty object. The
  -- message has for each index one text, all its deltas in their order, then in the same way the
  -- thoughts, each sorted by index and without the empty ones, then the calls, sorted by index, with
  -- the arguments that come for the first call of an index after it. The stop reason and the usage
  -- are the last ones of the stream. Else the stream was truncated.
  pub assemble_cases :
      (msg_id : MsgId) (cs : List Chunk)
      → ((all passes (calls [] cs) ≡ true)
          × (assemble parses msg_id (map inr cs) ≡ inr (told msg_id cs)))
        ⊎ ((all passes (calls [] cs) ≡ false)
            × (assemble parses msg_id (map inr cs) ≡ inl truncated))
  unfolding assemble assembled
  assemble_cases msg_id cs =
      let key = λ (t : ToolAccum). t.idx in
      let sorted = all-sort_by_key key passes (calls [] cs) in
      elim (calls_of_cases (sort_by_key key (calls [] cs))) [
        | inl (h, c) ↦ inl (sym sorted ∙ h, ground (arith, take_chunks-said cs, c))
        | inr (h, c) ↦ inr (sym sorted ∙ h, ground (arith, take_chunks-said cs, c))
      ]
