-- ===== src/AudioQa/Lifecycle/System/Examples.antt =====
-- A run that plays, is cancelled and closes (tools/audio_qa/run_lifecycle.cpp and its neighbours).
use ayther_runtime.Prelude.{◌≡◌, refl, true, false, none, some, List, [], ◌∷◌}
use ayther_runtime.AudioQa.CancellationWindow.{EvidenceResult}
use ayther_runtime.AudioQa.Lifecycle
use ayther_runtime.AudioQa.Lifecycle.{
  preparing, PlaybackResult, not_started, natural_end, EquivalenceResult, unknown, Run,
  RunLifecycle, RunTransitionError, mark_ready, start_playback, begin_closing, finish_closing,
}
use ayther_runtime.AudioQa.Lifecycle.Terminal.{ReplayTerminalEvent}
use ayther_runtime.AudioQa.Lifecycle.Evidence.{EvidenceCloseReport, fact_drain_failed}
use ayther_runtime.AudioQa.Lifecycle.Cancellation.{
  ReplayExternalControlCommand, cancel, handle, handle_control, capture_request,
  apply_at_frame_boundary, valid_position,
}
use ayther_runtime.AudioQa.Lifecycle.System.{
  new, Call, readies, starts, resolves, controls, captures, applies, closes, step, run,
}
use ayther_runtime.AudioQa.Lifecycle.System.Order.{
  InPhase, is_ended, Kept, one_part_ends, first_end-Kept,
}

abbrev fresh : Run
fresh = record {
  run_id = "run-1";
  request_id = "request-1";
  take_id = "take-1";
  phase = preparing;
  playback_result = not_started;
  evidence_result = EvidenceResult.pending;
  equivalence_result = unknown;
  last_executed_frame = none;
  last_durable_sample = none;
  cessation_confirmed = false;
}

abbrev interrupt : ReplayExternalControlCommand
interrupt = record { control = cancel; game_buttons = 0 }

abbrev natural : ReplayTerminalEvent
natural = record {
  result = natural_end;
  frames_completed = 9;
  last_executed_recording_frame = some 8;
  last_engine_frame = some 40;
}

abbrev lost_facts : EvidenceCloseReport
lost_facts = record { failure = fact_drain_failed; last_durable_sample = some 735 }

abbrev to_cancellation : List Call
to_cancellation =
    readies ∷ starts ∷ controls interrupt ∷ captures 3 (some 7) ∷ applies 4 (some 8) ∷ []

abbrev after_cancellation : List Call
after_cancellation = resolves natural ∷ closes lost_facts ∷ starts ∷ []

fresh_starts : (Lifecycle.new fresh).error ≡ RunTransitionError.none
unfolding Lifecycle.new
fresh_starts = refl

cancelled_ends : is_ended (run (new fresh) to_cancellation).lifecycle.run.phase ≡ true
unfolding run new step Lifecycle.new mark_ready start_playback begin_closing handle handle_control
    capture_request apply_at_frame_boundary valid_position
cancelled_ends = refl

one_part_ends_example : let r = run (new fresh) to_cancellation in InPhase r.lifecycle.run.phase r
one_part_ends_example = one_part_ends fresh to_cancellation fresh_starts

first_end-Kept_example :
    Kept
      (run (new fresh) to_cancellation)
      (run (run (new fresh) to_cancellation) after_cancellation)
first_end-Kept_example =
    first_end-Kept fresh to_cancellation after_cancellation fresh_starts cancelled_ends
