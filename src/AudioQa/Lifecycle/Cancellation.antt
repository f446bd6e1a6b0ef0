-- ===== src/AudioQa/Lifecycle/Cancellation.antt =====
-- tools/audio_qa/replay_control_gate.h and replay_control_gate.cpp, replay_cancellation.h and
-- replay_cancellation.cpp: which outside controls reach a replay, and its cancellation at the end of
-- a frame.
use Prim.Native.String.{String}
use ayther_runtime.Prelude.{
  ℕ, Bool, true, false, not, ◌||◌, Option, none, some, ltb, ◌==◌, if◌then◌else◌, is_some,
}
use ayther_runtime.Prelude.Word.{sub_u32}
use ayther_runtime.AudioQa.Lifecycle.{cancelled, RunLifecycle, begin_closing, is_none}

pub data ReplayExternalControl : Type 0 where
  game_keyboard rewind fast_forward cancel : ReplayExternalControl

pub data ReplayControlDisposition : Type 0 where
  ignored cancel_requested : ReplayControlDisposition

pub record ReplayExternalControlCommand : Type 0 where
  pub control : ReplayExternalControl
  pub game_buttons : ℕ

pub record ReplayControlResult : Type 0 where
  pub disposition : ReplayControlDisposition
  pub code : String

abbrev pub result : ReplayControlDisposition → String → ReplayControlResult
result disposition code = record { disposition = disposition; code = code }

-- The state of the gate is that a cancellation was requested.
unfoldable pub handle_control : Bool → ReplayExternalControl → Bool × ReplayControlResult
handle_control requested game_keyboard = (requested, result ignored "game_input_ignored")
handle_control requested rewind = (requested, result ignored "rewind_ignored")
handle_control requested fast_forward = (requested, result ignored "fast_forward_ignored")
handle_control requested cancel = (true, result cancel_requested "cancel_requested")

unfoldable pub handle : Bool → ReplayExternalControlCommand → Bool × ReplayControlResult
unfolding handle_control
handle requested command = handle_control requested command.control

pub record ReplayCancellationRecord : Type 0 where
  pub requested : Bool
  pub applied : Bool
  pub requested_after_frames : ℕ
  pub applied_after_frames : ℕ
  pub last_executed_recording_frame : Option ℕ
  pub last_engine_frame : Option ℕ

abbrev pub new : ReplayCancellationRecord
new = record {
  requested = false;
  applied = false;
  requested_after_frames = 0;
  applied_after_frames = 0;
  last_executed_recording_frame = none;
  last_engine_frame = none;
}

unfoldable pub valid_position : ℕ → Option ℕ → Bool
valid_position frames_completed engine_frame =
    if frames_completed == 0 then not (is_some engine_frame) else is_some engine_frame

unfoldable pub capture_request :
    ReplayCancellationRecord → Bool → ℕ → Option ℕ → ReplayCancellationRecord × Bool
unfolding valid_position
capture_request c cancellation_requested frames_completed last_engine_frame =
    if not cancellation_requested
      || (c.requested || not (valid_position frames_completed last_engine_frame))
    then (c, false)
    else (record c { requested = true; requested_after_frames = frames_completed }, true)

abbrev pub last_executed : ReplayCancellationRecord → ℕ → Option ℕ
last_executed c frames_completed =
    if frames_completed == 0
    then c.last_executed_recording_frame
    else some (sub_u32 frames_completed 1)

unfoldable pub apply_at_frame_boundary :
    ReplayCancellationRecord
    → ℕ
    → Option ℕ
    → RunLifecycle
    → ReplayCancellationRecord × RunLifecycle × Bool
unfolding valid_position
apply_at_frame_boundary c frames_completed last_engine_frame lifecycle =
    let closed = begin_closing lifecycle cancelled in
    if not c.requested
      || (c.applied
          || (ltb frames_completed c.requested_after_frames
              || not (valid_position frames_completed last_engine_frame)))
    then (c, lifecycle, false)
    else if not (is_none closed.1)
    then (c, closed.0, false)
    else (
      record c {
        applied = true;
        applied_after_frames = frames_completed;
        last_executed_recording_frame = last_executed c frames_completed;
        last_engine_frame = last_engine_frame;
      },
      closed.0,
      true,
    )
