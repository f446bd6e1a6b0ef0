-- ===== src/AudioQa/Timeline.antt =====
-- tools/audio_qa/pad_timeline.h and pad_timeline.cpp: a pad timeline compiled to the buttons of each
-- frame, and the step that a frame falls in. The arithmetic of the C library on doubles is a
-- parameter: that the frame rate is accepted, and `llround(seconds * fps)` of a duration, whose
-- seconds are the bits of their double. The frame rate itself, which the result only repeats, is left
-- out, and so is the start of the timeline, which the compilation does not read.
pub mod Buttons
pub mod Steps
pub mod Expansion
pub mod Compiled
pub mod Spans
pub mod Source
mod Examples
use Prim.Native.Nat.{bit_or, bit_and}
use Prim.Native.String.{String}
use ayther_runtime.Prelude.{
  ℕ, zero, suc, ◌+◌, ◌-◌, ◌*◌, ◌/◌, ◌%◌, Bool, not, ◌&&◌, ◌||◌, Option, some, List, [], ◌∷◌, ◌++◌,
  replicate, length, ltb, leb, ◌==◌, if◌then◌else◌, value_or,
}
use ayther_runtime.Prelude.Int.{ℤ, pos, negsuc}
use ayther_runtime.Prelude.Word.{sub_u32, add_u32, add_u64, u32_mod}
use ayther_runtime.AudioQa.Recording.{
  RecordingByteRange, current_recording_version, min_recording_frames, max_recording_frames,
}
use ayther_runtime.AudioQa.Recording.Layout.{RecordingLayout, range_at}
use ayther_runtime.AudioQa.Recording.Input.{RecordingInputSourceResult, make_recording_input_source}

abbrev pub default_press_frames : ℕ
default_press_frames = 4

pub data TimelineStepKind : Type 0 where
  wait press down up : TimelineStepKind

pub data TimelineDurationUnit : Type 0 where
  seconds frames : TimelineDurationUnit

pub record TimelineDuration : Type 0 where
  pub unit : TimelineDurationUnit
  pub seconds : ℕ
  pub frames : ℕ

pub record TimelineStep : Type 0 where
  pub kind : TimelineStepKind
  pub buttons : ℕ
  pub duration : Option TimelineDuration
  pub line : ℕ

pub data TimelineCompileError : Type 0 where
  none invalid_fps duration_rounds_to_zero too_many_frames no_frames : TimelineCompileError

pub record CompiledStepSpan : Type 0 where
  pub step : ℕ
  pub first_frame : ℕ
  pub frames : ℕ

pub record CompiledTimeline : Type 0 where
  pub buttons : List ℕ
  pub spans : List CompiledStepSpan
  pub input_bytes : List ℕ
  pub frames : ℕ

pub record TimelineCompileResult : Type 0 where
  pub error : TimelineCompileError
  pub line : ℕ
  pub compiled : CompiledTimeline

-- The two assignments to `held`, in 16 bits.
abbrev pub added : ℕ → ℕ → ℕ
added held buttons = bit_or held buttons % 65536

abbrev pub removed : ℕ → ℕ → ℕ
removed held buttons = bit_and held (65535 - buttons % 65536) % 65536

-- The default of a `press` with no duration.
abbrev pub default_duration : TimelineDuration
default_duration = record {
  unit = TimelineDurationUnit.frames;
  seconds = 0;
  frames = default_press_frames;
}

abbrev pub rounded_frames : ℤ → ℕ
rounded_frames (pos n) = n
rounded_frames (negsuc n) = 0

-- The held buttons, the masks and the spans so far; or the line where one of the two errors of
-- the loop ends it, with the masks and the spans so far.
pub data Compiling : Type 0 where
  goes : ℕ → List ℕ → List CompiledStepSpan → Compiling
  rounds_to_zero exceeds : ℕ → List ℕ → List CompiledStepSpan → Compiling

pub and_then : Compiling → (ℕ → List ℕ → List CompiledStepSpan → Compiling) → Compiling
and_then (goes held buttons spans) k = k held buttons spans
and_then (rounds_to_zero line buttons spans) k = rounds_to_zero line buttons spans
and_then (exceeds line buttons spans) k = exceeds line buttons spans

abbrev pub span : ℕ → ℕ → ℕ → CompiledStepSpan
span step first_frame count = record { step = step; first_frame = first_frame; frames = count }

-- `duration_rounds_to_zero`, `too_many_frames`, or the frames of a step with their mask.
pub append_frames : ℕ → ℕ → ℕ → ℕ → ℕ → List ℕ → List CompiledStepSpan → Compiling
append_frames index line count mask held buttons spans =
    if count == 0
    then rounds_to_zero line buttons spans
    else if ltb max_recording_frames (add_u64 (length buttons) count)
    then exceeds line buttons spans
    else goes held (buttons ++ replicate count mask)
        (spans ++ (span index (length buttons) count ∷ []))

-- `static_cast<std::byte>(mask & 0xffU)` and `static_cast<std::byte>(mask >> 8U)` of each mask.
pub bytes_of : List ℕ → List ℕ
bytes_of [] = []
bytes_of (mask ∷ masks) = mask % 256 ∷ mask / 256 ∷ bytes_of masks

module _ (round_seconds : ℕ → ℤ) where
  pub duration_frames : TimelineDurationUnit → TimelineDuration → ℕ
  duration_frames TimelineDurationUnit.frames d = d.frames
  duration_frames TimelineDurationUnit.seconds d = rounded_frames (round_seconds d.seconds)

  pub step_frames : TimelineStep → ℕ
  unfolding duration_frames
  step_frames step = let d = value_or step.duration default_duration in duration_frames d.unit d

  pub compile_step :
      TimelineStepKind → ℕ → TimelineStep → ℕ → List ℕ → List CompiledStepSpan → Compiling
  unfolding append_frames
  compile_step down index step held buttons spans = goes (added held step.buttons) buttons spans
  compile_step up index step held buttons spans = goes (removed held step.buttons) buttons spans
  compile_step wait index step held buttons spans =
      append_frames index step.line (step_frames step) held held buttons spans
  compile_step press index step held buttons spans =
      append_frames index step.line (step_frames step) (added held step.buttons) held buttons spans

  -- The loop, with the index, the held buttons, and the masks and the spans so far.
  pub compile_steps : ℕ → ℕ → List ℕ → List CompiledStepSpan → List TimelineStep → Compiling
  compile_steps index held buttons spans [] = goes held buttons spans
  compile_steps index held buttons spans (step ∷ steps) =
      and_then (compile_step step.kind index step held buttons spans)
        (λ held' buttons' spans'. compile_steps (suc index) held' buttons' spans' steps)

abbrev pub compiled_part : List ℕ → List CompiledStepSpan → CompiledTimeline
compiled_part buttons spans = record {
  buttons = buttons;
  spans = spans;
  input_bytes = [];
  frames = 0;
}

abbrev pub refuse :
    TimelineCompileError → ℕ → List ℕ → List CompiledStepSpan → TimelineCompileResult
refuse error line buttons spans = record {
  error = error;
  line = line;
  compiled = compiled_part buttons spans;
}

-- What follows the loop.
pub finish_compile : Compiling → TimelineCompileResult
finish_compile (rounds_to_zero line buttons spans) =
    refuse duration_rounds_to_zero line buttons spans
finish_compile (exceeds line buttons spans) = refuse too_many_frames line buttons spans
finish_compile (goes held buttons spans) =
    if ltb (length buttons) min_recording_frames then refuse no_frames 0 buttons spans else record {
      error = TimelineCompileError.none;
      line = 0;
      compiled = record {
        buttons = buttons;
        spans = spans;
        input_bytes = bytes_of buttons;
        frames = length buttons % u32_mod;
      };
    }

pub compile_pad_timeline : Bool → (ℕ → ℤ) → List TimelineStep → TimelineCompileResult
unfolding finish_compile
compile_pad_timeline fps_accepted round_seconds steps =
    if not fps_accepted
    then refuse invalid_fps 0 [] []
    else finish_compile (compile_steps round_seconds 0 0 [] [] steps)

pub record TimelinePosition : Type 0 where
  pub span : ℕ
  pub step : ℕ
  pub frames_left : ℕ

-- The loop of `timeline_position`, from a span on with its index.
pub position_from : ℕ → List CompiledStepSpan → ℕ → Option TimelinePosition
position_from index [] frame = Option.none
position_from index (s ∷ spans) frame =
    let rest = position_from (suc index) spans frame in
    if leb s.first_frame frame && ltb (sub_u32 frame s.first_frame) s.frames
    then some (record {
      span = index;
      step = s.step;
      frames_left = sub_u32 (add_u32 s.first_frame s.frames) frame;
    })
    else rest

pub timeline_position : CompiledTimeline → ℕ → Option TimelinePosition
timeline_position compiled frame = position_from 0 compiled.spans frame

pub timeline_input_layout : CompiledTimeline → RecordingLayout
timeline_input_layout compiled = record {
  header = record { version = current_recording_version };
  game_id = range_at 0 0;
  name = range_at 0 0;
  frame_count = compiled.frames;
  raw_state_bytes = 0;
  compressed_state = range_at 0 0;
  inputs = range_at 0 (compiled.frames * 2);
}

pub make_timeline_input_source : CompiledTimeline → RecordingInputSourceResult
unfolding timeline_input_layout
make_timeline_input_source compiled =
    make_recording_input_source compiled.input_bytes (timeline_input_layout compiled)
