-- ===== src/AudioQa/Lifecycle/Terminal.antt =====
-- tools/audio_qa/replay_terminal_arbiter.h and replay_terminal_arbiter.cpp: the one event that ends a
-- replay. An operation takes the shared lifecycle and returns it.
use ayther_runtime.Prelude.{
  ℕ, Bool, false, not, ◌&&◌, Option, none, some, ◌==◌, if◌then◌else◌, is_some,
}
use ayther_runtime.Prelude.Word.{sub_u32}
use ayther_runtime.AudioQa.Lifecycle.{
  PlaybackResult, RunLifecycle, begin_closing, is_terminal, is_none,
}

pub record ReplayTerminalEvent : Type 0 where
  pub result : PlaybackResult
  pub frames_completed : ℕ
  pub last_executed_recording_frame : Option ℕ
  pub last_engine_frame : Option ℕ

pub data ReplayTerminalDecision : Type 0 where
  accepted already_resolved invalid : ReplayTerminalDecision

-- Equality of an optional number with a number.
abbrev pub has_value : Option ℕ → ℕ → Bool
has_value none n = false
has_value (some m) n = m == n

unfoldable pub valid : ReplayTerminalEvent → Bool
valid event =
    if not (is_terminal event.result)
    then false
    else if event.frames_completed == 0
    then not (is_some event.last_executed_recording_frame) && not (is_some event.last_engine_frame)
    else has_value event.last_executed_recording_frame (sub_u32 event.frames_completed 1)
      && is_some event.last_engine_frame

-- The arbiter's own state is the event that it accepted.
unfoldable pub resolve :
    Option ReplayTerminalEvent
    → ReplayTerminalEvent
    → RunLifecycle
    → Option ReplayTerminalEvent × RunLifecycle × ReplayTerminalDecision
unfolding valid
resolve terminal event lifecycle =
    let closed = begin_closing lifecycle event.result in
    if not (valid event)
    then (terminal, lifecycle, invalid)
    else if is_some terminal
    then (terminal, lifecycle, already_resolved)
    else if not (is_none closed.1)
    then (terminal, closed.0, invalid)
    else (some event, closed.0, accepted)
