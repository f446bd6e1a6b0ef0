-- ===== src/AudioQa/Timeline/Examples.antt =====
-- A timeline of five steps and ten frames (tools/audio_qa/pad_timeline.cpp).
use ayther_runtime.Prelude.{ℕ, ◌≡◌, refl, true, Option, none, some, List, [], ◌∷◌, All, arith}
use ayther_runtime.Prelude.Int.{ℤ, pos}
use ayther_runtime.AudioQa.Recording.Input.{RecordingInputSourceError, reads}
use ayther_runtime.AudioQa.Recording.Input.Sequence.{numbered}
use ayther_runtime.AudioQa.Timeline.{
  TimelineStepKind, wait, press, down, up, TimelineDuration, TimelineDurationUnit, TimelineStep,
  TimelineCompileError, and_then, append_frames, duration_frames, step_frames, compile_step,
  compile_steps, finish_compile, compile_pad_timeline, timeline_position,
  make_timeline_input_source,
}
use ayther_runtime.AudioQa.Timeline.Expansion.{IsWord}
use ayther_runtime.AudioQa.Timeline.Steps.{expand}
use ayther_runtime.AudioQa.Timeline.Buttons.{released}
use ayther_runtime.AudioQa.Timeline.Compiled.{IsCompiled, compile-IsCompiled}
use ayther_runtime.AudioQa.Timeline.Source.{source_gives_steps}
use ayther_runtime.AudioQa.Timeline.Spans.{Located, position_iff_compiled}

-- Every duration in seconds is three frames.
abbrev three : ℕ → ℤ
three s = pos 3

abbrev in_seconds : TimelineDuration
in_seconds = record { unit = TimelineDurationUnit.seconds; seconds = 1; frames = 0 }

abbrev step : TimelineStepKind → ℕ → Option TimelineDuration → TimelineStep
step kind buttons duration = record {
  kind = kind;
  buttons = buttons;
  duration = duration;
  line = 1;
}

abbrev steps : List TimelineStep
steps =
    step wait 0 (some in_seconds)
    ∷ step down 16 none
    ∷ step press 2 none
    ∷ step up 16 none
    ∷ step wait 0 (some in_seconds)
    ∷ []

steps-IsWord : All (IsWord three) steps
unfolding step_frames duration_frames
steps-IsWord = (omega arith, (omega arith, (omega arith, (omega arith, (omega arith, tt)))))

steps_compile : (compile_pad_timeline true three steps).error ≡ TimelineCompileError.none
unfolding compile_pad_timeline finish_compile compile_steps compile_step append_frames step_frames
    duration_frames and_then
steps_compile = refl

compile-IsCompiled_example : IsCompiled three steps (compile_pad_timeline true three steps).compiled
compile-IsCompiled_example = compile-IsCompiled true three steps steps-IsWord steps_compile

source_gives_steps_example :
    let made = make_timeline_input_source (compile_pad_timeline true three steps).compiled in
    (made.error ≡ RecordingInputSourceError.none)
    × (reads 54000 made.source ≡ numbered 0 (expand three released steps))
source_gives_steps_example =
    source_gives_steps true three steps 54000 steps-IsWord steps_compile (omega arith)

position_iff_compiled_example :
    let c = (compile_pad_timeline true three steps).compiled in
    Located c.spans 0 c.frames 4 (timeline_position c 4)
position_iff_compiled_example =
    position_iff_compiled true three steps 4 steps-IsWord steps_compile (omega arith)
