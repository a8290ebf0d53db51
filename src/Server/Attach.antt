-- ===== src/Server/Attach.antt =====
-- crates/kn9t-server/src/sse.rs: the frames that an attaching client gets before the live loop. The
-- JSON text of an event (`serde_json`) is the parameter `to_json`. The store's answers, which it
-- reads under one lock, and what the subscription's `try_recv` returns, one after another, are
-- arguments.
pub mod Frames
pub mod Continuity
use Prim.Native.String.{◌++◌ as append}
use kn9t.Prelude.{
  ℕ, ◌+◌, String, Bool, true, false, Option, none, some, List, [], ◌∷◌, ◌++◌, map, leb, ltb, ◌==◌,
  if◌then◌else◌,
}
use kn9t.Core.Event.{Event, seq_of}

unfoldable pub event_name : Event → String
event_name (Event.session_forked _ _) = "session_forked"
event_name (Event.message_appended _ _) = "message_appended"
event_name (Event.model_changed _ _) = "model_changed"
event_name (Event.compacted _ _ _) = "compacted"
event_name (Event.handoff _ _ _ _ _) = "handoff"
event_name (Event.tools_toggled _ _) = "tools_toggled"
event_name (Event.usage_recorded _ _ _ _ _ _ _ _) = "usage_recorded"
event_name (Event.turn_started _) = "turn_started"
event_name (Event.text_delta _ _ _) = "text_delta"
event_name (Event.thinking_delta _ _ _) = "thinking_delta"
event_name (Event.tool_args_delta _ _ _) = "tool_args_delta"
event_name (Event.tool_started _ _) = "tool_started"
event_name (Event.tool_progress _ _) = "tool_progress"
event_name (Event.tool_finished _ _) = "tool_finished"
event_name (Event.approval_request _ _ _ _ _) = "approval_request"
event_name (Event.turn_ended _ _) = "turn_ended"
event_name (Event.hook_failed _ _ _) = "hook_failed"
event_name (Event.title_changed _) = "title_changed"
event_name (Event.error _) = "error"
event_name (Event.retry_attempt _ _ _ _ _) = "retry_attempt"
event_name (Event.turn_status _ _) = "turn_status"
event_name (Event.plugin_notification _) = "plugin_notification"
event_name (Event.interaction_request _ _ _) = "interaction_request"
event_name (Event.ui_directive _ _ _ _) = "ui_directive"
event_name (Event.plugin_declared _ _ _) = "plugin_declared"
event_name (Event.plugin_state _ _ _) = "plugin_state"

unfoldable pub sse_frame : (to_json : Event → String) → Event → String
unfolding event_name
sse_frame to_json e =
    append "event: " (append (event_name e) (append "\ndata: " (append (to_json e) "\n\n")))

unfoldable pub live_partial_frame : String → String
live_partial_frame partial_content_json =
    append "event: live_partial\ndata: " (append partial_content_json "\n\n")

pub record AttachPrelude : Type 0 where
  pub frames : List String
  pub head_seq : ℕ
  pub contiguous_through : ℕ
  pub gap_detected : Bool

module _ (to_json : Event → String) where
  -- One event of the buffer, in the loop of step 4.
  unfoldable pub flush_one : AttachPrelude → Event → AttachPrelude
  flush_one p ev =
      let frames = p.frames ++ sse_frame to_json ev ∷ [] in
      let next = p.contiguous_through + 1 in
      elim (seq_of ev) [
        | none ↦ record p { frames = frames }
        | some seq ↦
            if leb seq p.head_seq
            then p
            else if seq == next
            then record p { frames = frames; contiguous_through = seq }
            else if ltb next seq
            then record p { frames = frames; gap_detected = true }
            else record p { frames = frames }
      ]

  unfoldable pub flush : AttachPrelude → List Event → AttachPrelude
  unfolding flush_one
  flush p [] = p
  flush p (ev ∷ evs) = flush (flush_one p ev) evs

  -- The frame of step 3, if a partial message is in flight.
  unfoldable pub partial_frames : Option String → List String
  unfolding live_partial_frame
  partial_frames none = []
  partial_frames (some json) = live_partial_frame json ∷ []

  unfoldable pub build_attach_prelude :
      (durable : List Event) (head_seq : ℕ) (partial : Option String) (buffered : List Event)
      → AttachPrelude
  unfolding partial_frames flush
  build_attach_prelude durable head_seq partial buffered =
      flush
        (record {
          frames = map (sse_frame to_json) durable ++ partial_frames partial;
          head_seq = head_seq;
          contiguous_through = head_seq;
          gap_detected = false;
        })
        buffered
