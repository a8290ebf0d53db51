-- ===== src/Server/Attach/Frames.antt =====
-- Which frames the prelude holds.
use kn9t.Prelude.{
  ℕ, String, ◌≡◌, sym, ◌∙◌, ap, Bool, true, not, Option, none, some, List, [], ◌∷◌, ◌++◌, map,
  append_assoc, append-nil, map-append, keep-append, keep, leb, arith,
}
use kn9t.Core.Event.{Event, seq_of}
use kn9t.Server.Attach.{
  AttachPrelude, sse_frame, flush_one, flush, partial_frames, build_attach_prelude,
}

-- A buffered event that the replay has not already delivered.
abbrev pub is_new : ℕ → Event → Bool
is_new head e = elim (seq_of e) [ none ↦ true | some seq ↦ not (leb seq head) ]

abbrev pub new_events : ℕ → List Event → List Event
new_events head = keep (is_new head)

module _ (to_json : Event → String) where
  head-flush_one : (p : AttachPrelude) (e : Event) → (flush_one to_json p e).head_seq ≡ p.head_seq
  unfolding flush_one
  head-flush_one p e = ground arith

  frames-flush_one :
      (p : AttachPrelude) (e : Event)
      → (flush_one to_json p e).frames
        ≡ p.frames ++ map (sse_frame to_json) (new_events p.head_seq (e ∷ []))
  unfolding flush_one
  frames-flush_one p e = ground (arith, append-nil p.frames)

  frames-flush :
      (p : AttachPrelude) (es : List Event)
      → (flush to_json p es).frames ≡ p.frames ++ map (sse_frame to_json) (new_events p.head_seq es)
  unfolding flush
  frames-flush p [] = sym (append-nil p.frames)
  frames-flush p (e ∷ es) =
      let head = p.head_seq in
      let shown = λ (l : List Event). map (sse_frame to_json) (new_events head l) in
      let apart : shown (e ∷ es) ≡ shown (e ∷ []) ++ shown es =
        ap (map (sse_frame to_json)) (keep-append (is_new head) (e ∷ []) es)
        ∙ map-append (sse_frame to_json) (new_events head (e ∷ [])) (new_events head es) in
      frames-flush (flush_one to_json p e) es
      ∙ rw (head-flush_one, frames-flush_one)
          (append_assoc p.frames (shown (e ∷ [])) (shown es) ∙ ap (λ t. p.frames ++ t) (sym apart))

  -- The client gets the replay, then the message in flight, then the buffered events in their order,
  -- without those that the replay has delivered.
  pub frames-build_attach_prelude :
      (durable : List Event) (head : ℕ) (partial : Option String) (buffered : List Event)
      → (build_attach_prelude to_json durable head partial buffered).frames
        ≡ map (sse_frame to_json) durable
          ++ (partial_frames to_json partial ++ map (sse_frame to_json) (new_events head buffered))
  unfolding build_attach_prelude
  frames-build_attach_prelude durable head partial buffered =
      frames-flush _ buffered ∙ append_assoc (map (sse_frame to_json) durable) _ _
