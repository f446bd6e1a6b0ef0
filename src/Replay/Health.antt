-- ===== src/Replay/Health.antt =====
-- src/replay_inspection/presentation_health.h and presentation_health.cpp.
pub mod Incidents
mod Examples
use Prim.Native.String.{String}
use ayther_runtime.Prelude.{ℕ, Bool, true, false, not, ◌&&◌, ◌||◌, List, [], ◌∷◌, if◌then◌else◌}
use ayther_runtime.Prelude.Word.{add_u32}

pub data PresentationState : Type 0 where
  healthy interrupted lost : PresentationState

pub data VideoResult : Type 0 where
  presented acquire_failed present_failed device_lost : VideoResult

pub data RecoveryAttempt : Type 0 where
  healthy recovered still_interrupted unrecoverable : RecoveryAttempt

pub record PresentationHealth : Type 0 where
  pub state : PresentationState
  pub cause : String
  pub incidents : ℕ
  pub video_lost : Bool
  pub audio_lost : Bool
  pub is_minimized : Bool

pub new : PresentationHealth
new = record {
  state = PresentationState.healthy;
  cause = "";
  incidents = 0;
  video_lost = false;
  audio_lost = false;
  is_minimized = false;
}

interrupt_at : PresentationState → PresentationHealth → String → PresentationHealth
interrupt_at lost h cause = h
interrupt_at PresentationState.healthy h cause = record h {
  incidents = add_u32 h.incidents 1;
  cause = cause;
  state = interrupted;
}
interrupt_at interrupted h cause = record h { state = interrupted }

-- The private `interrupt`.
pub interrupt : PresentationHealth → String → PresentationHealth
unfolding interrupt_at
interrupt h cause = interrupt_at h.state h cause

abbrev pub is_healthy : PresentationState → Bool
is_healthy PresentationState.healthy = true
is_healthy s = false

pub frame_result : PresentationHealth → VideoResult → PresentationHealth
unfolding interrupt
frame_result h presented = h
frame_result h acquire_failed = interrupt (record h { video_lost = true }) "video_acquire_failed"
frame_result h present_failed = interrupt (record h { video_lost = true }) "video_present_failed"
frame_result h device_lost = record h {
  incidents = if is_healthy h.state then add_u32 h.incidents 1 else h.incidents;
  cause = "device_lost";
  state = lost;
}

pub audio_device_removed : PresentationHealth → Bool → PresentationHealth
unfolding interrupt
audio_device_removed h in_use =
    if not in_use then h else interrupt (record h { audio_lost = true }) "audio_device_removed"

pub audio_device_added : PresentationHealth → PresentationHealth
audio_device_added h = h

pub minimized : PresentationHealth → Bool → PresentationHealth
unfolding interrupt
minimized h value =
    let h' = record h { is_minimized = value } in
    if value then interrupt h' "window_minimized" else h'

pub focus : PresentationHealth → Bool → PresentationHealth
focus h focused = h

poll_at :
    PresentationState → PresentationHealth → Bool → Bool → PresentationHealth × RecoveryAttempt
poll_at PresentationState.healthy h swapchain_ready audio_ready = (h, RecoveryAttempt.healthy)
poll_at lost h swapchain_ready audio_ready = (h, unrecoverable)
poll_at interrupted h swapchain_ready audio_ready =
    if h.is_minimized
      || ((h.video_lost && not swapchain_ready) || (h.audio_lost && not audio_ready))
    then (h, still_interrupted)
    else (
      record h { video_lost = false; audio_lost = false; state = PresentationState.healthy },
      recovered,
    )

pub poll : PresentationHealth → Bool → Bool → PresentationHealth × RecoveryAttempt
unfolding poll_at
poll h swapchain_ready audio_ready = poll_at h.state h swapchain_ready audio_ready

-- What the adapter can report, and the attempts to recover.
pub data Report : Type 0 where
  frames : VideoResult → Report
  removes minimizes focuses : Bool → Report
  adds : Report
  polls : Bool → Bool → Report

pub step : PresentationHealth → Report → PresentationHealth
step h (frames result) = frame_result h result
step h (removes in_use) = audio_device_removed h in_use
step h (minimizes value) = minimized h value
step h (focuses value) = focus h value
step h adds = audio_device_added h
step h (polls swapchain_ready audio_ready) = (poll h swapchain_ready audio_ready).0

pub run : PresentationHealth → List Report → PresentationHealth
run h [] = h
run h (e ∷ es) = run (step h e) es
