-- ===== src/AudioQa/Lifecycle.antt =====
-- tools/audio_qa/run_lifecycle.h and run_lifecycle.cpp: the phases of one run, from its preparation
-- to its close, with the two results it ends with. An operation returns the new state and the error.
pub mod Terminal
pub mod Cancellation
pub mod Evidence
pub mod System
use Prim.Native.String.{String, len}
use ayther_runtime.Prelude.{ℕ, Bool, true, false, not, ◌&&◌, ◌||◌, Option, ◌==◌, if◌then◌else◌}
use ayther_runtime.AudioQa.CancellationWindow.{EvidenceResult}

pub data Phase : Type 0 where
  preparing ready playing closing closed : Phase

pub data PlaybackResult : Type 0 where
  not_started in_progress natural_end cancelled error : PlaybackResult

pub data EquivalenceResult : Type 0 where
  unknown verified incomplete : EquivalenceResult

pub record Run : Type 0 where
  pub run_id : String
  pub request_id : String
  pub take_id : String
  pub phase : Phase
  pub playback_result : PlaybackResult
  pub evidence_result : EvidenceResult
  pub equivalence_result : EquivalenceResult
  pub last_executed_frame : Option ℕ
  pub last_durable_sample : Option ℕ
  pub cessation_confirmed : Bool

pub data RunTransitionError : Type 0 where
  none invalid_initial_state invalid_transition invalid_terminal_result invalid_evidence_result :
      RunTransitionError

pub record RunLifecycle : Type 0 where
  pub run : Run
  pub error : RunTransitionError

abbrev pub is_preparing : Phase → Bool
is_preparing preparing = true
is_preparing p = false

abbrev pub is_ready : Phase → Bool
is_ready ready = true
is_ready p = false

abbrev pub is_playing : Phase → Bool
is_playing playing = true
is_playing p = false

abbrev pub is_closing : Phase → Bool
is_closing closing = true
is_closing p = false

-- A result that playback can end with, that is neither `not_started` nor `in_progress`.
abbrev pub is_terminal : PlaybackResult → Bool
is_terminal not_started = false
is_terminal PlaybackResult.in_progress = false
is_terminal r = true

abbrev pub is_not_started : PlaybackResult → Bool
is_not_started not_started = true
is_not_started r = false

abbrev pub is_pending : EvidenceResult → Bool
is_pending EvidenceResult.pending = true
is_pending r = false

abbrev pub is_final : EvidenceResult → Bool
is_final EvidenceResult.complete = true
is_final EvidenceResult.incomplete = true
is_final r = false

abbrev pub is_none : RunTransitionError → Bool
is_none RunTransitionError.none = true
is_none e = false

unfoldable pub new : Run → RunLifecycle
new run = record {
  run = run;
  error =
      if (len run.run_id == 0)
        || ((len run.request_id == 0)
            || ((len run.take_id == 0)
                || (not (is_preparing run.phase)
                    || (not (is_not_started run.playback_result)
                        || not (is_pending run.evidence_result)))))
      then invalid_initial_state
      else RunTransitionError.none;
}

unfoldable pub mark_ready : RunLifecycle → RunLifecycle × RunTransitionError
mark_ready l =
    if not (is_none l.error) || not (is_preparing l.run.phase)
    then (l, invalid_transition)
    else (record l { run = record (l.run) { phase = ready } }, RunTransitionError.none)

unfoldable pub start_playback : RunLifecycle → RunLifecycle × RunTransitionError
start_playback l =
    if not (is_none l.error) || not (is_ready l.run.phase) then (l, invalid_transition) else (
      record l {
        run = record (l.run) { phase = playing; playback_result = PlaybackResult.in_progress };
      },
      RunTransitionError.none,
    )

unfoldable pub begin_closing : RunLifecycle → PlaybackResult → RunLifecycle × RunTransitionError
begin_closing l playback_result =
    if not (is_none l.error) || not (is_playing l.run.phase)
    then (l, invalid_transition)
    else if not (is_terminal playback_result)
    then (l, invalid_terminal_result)
    else (
      record l { run = record (l.run) { phase = closing; playback_result = playback_result } },
      RunTransitionError.none,
    )

unfoldable pub finish_closing : RunLifecycle → EvidenceResult → RunLifecycle × RunTransitionError
finish_closing l evidence_result =
    if not (is_none l.error) || not (is_closing l.run.phase)
    then (l, invalid_transition)
    else if not (is_final evidence_result)
    then (l, invalid_evidence_result)
    else (
      record l { run = record (l.run) { phase = closed; evidence_result = evidence_result } },
      RunTransitionError.none,
    )
