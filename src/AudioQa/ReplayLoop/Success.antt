-- ===== src/AudioQa/ReplayLoop/Success.antt =====
-- A frame of a replay that is not disturbed (tools/audio_qa/recording_replay_loop.cpp).
use ayther_runtime.Prelude.{ℕ, suc, ◌≤◌, ◌<◌, ◌≡◌, ◌⊎◌, refl, true, Option, some, [], ◌∷◌, arith}
use ayther_runtime.AudioQa.Progress.{
  Publisher, accepted, started, finished, publish_start, publish_input, publish_frame,
  publish_finish,
}
use ayther_runtime.AudioQa.Recording.Input.{RecordingFrameInput, input}
use ayther_runtime.AudioQa.ReplayLoop.{
  RecordingReplayLoop, ReplayFrameOperations, ReplayFrameError, input_exhausted, sets, steps,
  Execution, start_progress, finish_progress, input_progress, frame_progress, complete_frame,
  operate, run_frame, run_out,
}

-- Operations that are there and succeed.
abbrev pub Succeeds : ReplayFrameOperations → Type 0
Succeeds o =
    (o.available ≡ true)
    × ((i : RecordingFrameInput) → (o.set_input i).succeeded ≡ true)
    × (o.step.succeeded ≡ true)

-- Progress, where it is told, that was accepted for a number of frames and told some of them.
abbrev pub Told : ℕ → ℕ → Option Publisher → Type 0
Told total k Option.none = Unit {0}
Told total k (some p) =
    (p.total_inputs ≡ total)
    × (p.inputs_consumed ≡ k)
    × (p.frames_completed ≡ k)
    × ((p.state ≡ accepted) ⊎ (p.state ≡ started))

-- Progress, where it is told, that has told the end.
abbrev pub Ended : Option Publisher → Type 0
Ended Option.none = Unit {0}
Ended (some p) = p.state ≡ finished

-- Progress that has told the start and some frames.
abbrev pub Started : ℕ → ℕ → Option Publisher → Type 0
Started total k Option.none = Unit {0}
Started total k (some p) =
    (p.total_inputs ≡ total)
    × (p.inputs_consumed ≡ k)
    × (p.frames_completed ≡ k)
    × (p.state ≡ started)

-- A whole frame from a loop whose next frame it is.
abbrev pub Whole : ℕ → RecordingReplayLoop → ℕ → ℕ → Execution → Type 0
Whole total loop k mask e =
    (e.result.error ≡ ReplayFrameError.none)
    × (e.loop.publication ≡ loop.publication)
    × (e.loop.inputs ≡ loop.inputs)
    × (e.loop.frames_completed ≡ suc k)
    × (e.loop.failed ≡ loop.failed)
    × (e.calls ≡ sets (input k mask) ∷ steps ∷ [])
    × Started total (suc k) e.loop.progress

module _ (total : ℕ) (small : total ≤ 54000) where
  pub start_succeeds :
      (k : ℕ) (o : Option Publisher)
      → Told total k o
      → ((start_progress o).1 ≡ true) × Started total k (start_progress o).0
  unfolding start_progress publish_start
  start_succeeds k Option.none t = (refl, tt)
  start_succeeds k (some p) t = ground arith

  pub frame_succeeds :
      (loop : RecordingReplayLoop) (o : ReplayFrameOperations) (k mask : ℕ)
      (progress : Option Publisher)
      → k < total
      → loop.frames_completed ≡ k
      → (o.set_input (input k mask)).succeeded ≡ true
      → o.step.succeeded ≡ true
      → Started total k progress
      → Whole total loop k mask (run_frame (record loop { progress = progress }) o (input k mask))
  unfolding run_frame operate complete_frame input_progress frame_progress publish_input
      publish_frame
  frame_succeeds loop o k mask Option.none l c s t u = ground arith
  frame_succeeds loop o k mask (some p) l c s t u = ground arith

  pub end_succeeds :
      (loop : RecordingReplayLoop) (progress : Option Publisher)
      → Started total total progress
      → let e = run_out (record loop { progress = progress }) in
        (e.result.error ≡ input_exhausted)
        × (e.loop.failed ≡ loop.failed)
        × (e.loop.frames_completed ≡ loop.frames_completed)
        × Ended e.loop.progress
  unfolding run_out finish_progress publish_finish
  end_succeeds loop Option.none u = (refl, refl, refl, tt)
  end_succeeds loop (some p) u = ground arith
