-- ===== src/AudioQa/ReplayLoop/Examples.antt =====
-- A take of two frames replayed to its end and after a failure
-- (tools/audio_qa/recording_replay_loop.cpp).
use ayther_runtime.Prelude.{◌≡◌, inl, refl, Bool, true, false, some, [], ◌∷◌, length}
use ayther_runtime.AudioQa.Model.Initial.Sample.{fresh_state}
use ayther_runtime.AudioQa.Progress.{Publisher, accepted}
use ayther_runtime.AudioQa.Recording.Samples.{layout, before_inputs, masks, tail}
use ayther_runtime.AudioQa.Recording.Input.{make_recording_input_source}
use ayther_runtime.AudioQa.Recording.Input.Sequence.{holds}
use ayther_runtime.AudioQa.Recording.Input.Sample.{masks-Fits}
use ayther_runtime.AudioQa.Publication.{
  InitialStatePublication, InitialStatePublicationError, acknowledged, input_permitted,
}
use ayther_runtime.AudioQa.ReplayLoop.{
  ReplayFrameOperationResult, ReplayFrameOperations, execute_next, new, run, calls,
}
use ayther_runtime.AudioQa.ReplayLoop.Outcome.{script, IsPrefix}
use ayther_runtime.AudioQa.ReplayLoop.Frames.{engine_follows_take}
use ayther_runtime.AudioQa.ReplayLoop.Completion.{EndOf, replay_completes}
use ayther_runtime.AudioQa.ReplayLoop.Success.{Succeeds}

abbrev acknowledged_state : InitialStatePublication
acknowledged_state = record {
  state = fresh_state;
  status = acknowledged;
  error = InitialStatePublicationError.none;
}

abbrev answer : Bool → ReplayFrameOperationResult
answer ok = record { succeeded = ok; engine_frame = 9; code = ""; detail = "" }

abbrev works : ReplayFrameOperations
works = record { available = true; set_input = λ i. answer true; step = answer true }

abbrev breaks : ReplayFrameOperations
breaks = record { available = true; set_input = λ i. answer true; step = answer false }

abbrev told : Publisher
told = record {
  has_observer = true;
  total_inputs = 2;
  state = accepted;
  inputs_consumed = 0;
  frames_completed = 0;
  last_engine_frame = 0;
}

permitted : input_permitted acknowledged_state ≡ true
unfolding input_permitted
permitted = refl

engine_follows_take_example :
    let source = (make_recording_input_source (holds before_inputs masks tail) layout).source in
    IsPrefix
      (calls (new acknowledged_state source (some told)) (works ∷ breaks ∷ works ∷ []))
      (script 0 masks)
engine_follows_take_example =
    engine_follows_take before_inputs masks tail layout acknowledged_state (some told)
      (works ∷ breaks ∷ works ∷ []) masks-Fits

works-Succeeds : Succeeds works
works-Succeeds = (refl, λ i. refl, refl)

replay_completes_example :
    let source = (make_recording_input_source (holds before_inputs masks tail) layout).source in
    let loop = new acknowledged_state source (some told) in
    (calls loop (works ∷ works ∷ []) ≡ script 0 masks)
    × EndOf (execute_next (run loop (works ∷ works ∷ [])) works) (length masks)
replay_completes_example =
    replay_completes before_inputs masks tail layout acknowledged_state (some told)
      (works ∷ works ∷ []) works masks-Fits permitted (refl, refl, refl, inl refl)
      (works-Succeeds, (works-Succeeds, tt)) refl works-Succeeds
