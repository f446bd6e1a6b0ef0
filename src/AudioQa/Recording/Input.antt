-- ===== src/AudioQa/Recording/Input.antt =====
-- tools/audio_qa/recording_input_source.h and recording_input_source.cpp: the inputs of a take, one
-- frame after the other. A span is the list of the bytes it shows.
pub mod Sequence
pub mod Whole
pub mod Sample
mod Examples
use ayther_runtime.Prelude.{
  ℕ, suc, ◌+◌, ◌-◌, ◌*◌, ◌%◌, Bool, not, ◌||◌, Option, some, List, [], length, take, drop, ltb, leb,
  ◌==◌, if◌then◌else◌, emit,
}
use ayther_runtime.Prelude.Word.{u64_mod, add_u32}
use ayther_runtime.AudioQa.Recording.{
  RecordingByteRange, byte_at, has_bytes, min_recording_frames, max_recording_frames,
}
use ayther_runtime.AudioQa.Recording.Layout.{RecordingLayout}

pub record RecordingFrameInput : Type 0 where
  pub frame : ℕ
  pub buttons : ℕ

pub data RecordingInputSourceError : Type 0 where
  none invalid_frame_count invalid_input_range truncated_input_range : RecordingInputSourceError

pub record RecordingInputSource : Type 0 where
  pub bytes : List ℕ
  pub frame_count : ℕ
  pub cursor : ℕ

pub record RecordingInputSourceResult : Type 0 where
  pub error : RecordingInputSourceError
  pub source : RecordingInputSource

-- A default-constructed source.
abbrev pub empty_source : RecordingInputSource
empty_source = record { bytes = []; frame_count = 0; cursor = 0 }

unfoldable pub contains : List ℕ → RecordingByteRange → Bool
unfolding has_bytes
contains bytes range = has_bytes range.offset range.size (length bytes)

abbrev pub source_result :
    RecordingInputSourceError → RecordingInputSource → RecordingInputSourceResult
source_result error source = record { error = error; source = source }

unfoldable pub initialize_recording_input_source :
    RecordingInputSource → List ℕ → RecordingLayout → RecordingInputSourceResult
initialize_recording_input_source source recording layout =
    if ltb layout.frame_count min_recording_frames || ltb max_recording_frames layout.frame_count
    then source_result invalid_frame_count source
    else if not (layout.inputs.size == layout.frame_count * 2)
        || ltb (u64_mod - 1) layout.inputs.offset
    then source_result invalid_input_range source
    else if not (contains recording layout.inputs)
    then source_result truncated_input_range source
    else source_result RecordingInputSourceError.none (record source {
      bytes = take layout.inputs.size (drop layout.inputs.offset recording);
      frame_count = layout.frame_count;
    })

unfoldable pub make_recording_input_source : List ℕ → RecordingLayout → RecordingInputSourceResult
make_recording_input_source recording layout =
    initialize_recording_input_source empty_source recording layout

unfoldable pub exhausted : RecordingInputSource → Bool
exhausted s = leb s.frame_count s.cursor

-- `low | high << 8U`, of two bytes, in a 16-bit word.
abbrev pub word_at : List ℕ → ℕ → ℕ
word_at bytes offset = (byte_at bytes offset + 256 * byte_at bytes (offset + 1)) % 65536

abbrev pub input : ℕ → ℕ → RecordingFrameInput
input frame buttons = record { frame = frame; buttons = buttons }

unfoldable pub next : RecordingInputSource → RecordingInputSource × Option RecordingFrameInput
unfolding exhausted
next s = if exhausted s then (s, Option.none) else (
  record s { cursor = add_u32 s.cursor 1 },
  some (input s.cursor (word_at s.bytes (s.cursor * 2))),
)

-- The inputs that a number of calls give.
pub reads : ℕ → RecordingInputSource → List RecordingFrameInput
reads ℕ.zero s = []
reads (suc n) s = emit (next s).1 (reads n (next s).0)
