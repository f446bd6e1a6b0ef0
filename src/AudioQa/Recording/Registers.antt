-- ===== src/AudioQa/Recording/Registers.antt =====
-- tools/audio_qa/recording_header.h and recording_header.cpp, `decode_recording_fm_registers`: the
-- walk over the tail of a take to its registers. The reader's state is its offset.
pub mod Tail
pub mod End
mod Examples
use ayther_runtime.Prelude.{
  ℕ, zero, suc, ◌+◌, ◌*◌, Bool, not, ◌&&◌, ◌||◌, List, [], length, take, drop, ltb, leb, ◌==◌,
  if◌then◌else◌,
}
use ayther_runtime.Prelude.Word.{add_u32, add_u64}
use ayther_runtime.AudioQa.Recording.{read_u32_le, has_bytes}
use ayther_runtime.AudioQa.Recording.Layout.{RecordingLayout}

abbrev pub recording_fm_registers_version : ℕ
recording_fm_registers_version = 9

abbrev pub recording_fm_register_bytes : ℕ
recording_fm_register_bytes = 512

abbrev pub take_id_recording_version : ℕ
take_id_recording_version = 10

abbrev pub take_id_bytes : ℕ
take_id_bytes = 8

pub data RecordingFmRegistersError : Type 0 where
  none invalid_layout truncated_content invalid_section invalid_size trailing_content :
      RecordingFmRegistersError

pub record RecordingFmRegistersResult : Type 0 where
  pub error : RecordingFmRegistersError
  pub registers : List ℕ

-- A step of the walk: the offset after it, or which of its two errors ends it.
pub data Walk : Type 0 where
  at : ℕ → Walk
  truncated in_section : Walk

pub and_then : Walk → (ℕ → Walk) → Walk
and_then (at offset) k = k offset
and_then truncated k = truncated
and_then in_section k = in_section

-- `TailCursor::skip`, where a failure returns `truncated`.
pub skip : List ℕ → ℕ → ℕ → Walk
skip bytes count offset =
    if has_bytes offset count (length bytes) then at (add_u64 offset count) else truncated

-- `TailCursor::read_u32`, with what follows for the value.
pub read_u32 : List ℕ → ℕ → (ℕ → ℕ → Walk) → Walk
read_u32 bytes offset k =
    if has_bytes offset 4 (length bytes)
    then k (read_u32_le bytes offset) (add_u64 offset 4)
    else truncated

pub skip_hash_history : List ℕ → ℕ → ℕ → Walk
skip_hash_history bytes frames offset = read_u32 bytes offset (λ total after.
    and_then (skip bytes (total * 8) after) (λ hashed. skip bytes (frames * 4) hashed))

-- One keyframe: its frame, the size of its state, and the compressed state, which it skips.
pub skip_keyframe : List ℕ → ℕ → ℕ → Walk
skip_keyframe bytes frames offset = read_u32 bytes offset (λ frame after_frame.
    read_u32 bytes after_frame (λ raw_size after_raw.
      read_u32 bytes after_raw (λ compressed_size after.
        if ltb frames frame || (raw_size == 0)
        then in_section
        else skip bytes compressed_size after)))

pub skip_keyframes : List ℕ → ℕ → ℕ → ℕ → Walk
skip_keyframes bytes frames zero offset = at offset
skip_keyframes bytes frames (suc count) offset =
    and_then (skip_keyframe bytes frames offset) (skip_keyframes bytes frames count)

-- The v4 section: the number of keyframes and the keyframes.
pub skip_keyframe_section : List ℕ → ℕ → ℕ → Walk
skip_keyframe_section bytes frames offset = read_u32 bytes offset (λ count after.
    if ltb (add_u32 frames 1) count then in_section else skip_keyframes bytes frames count after)

-- Everything between the inputs and the size of the registers.
pub skip_sections : List ℕ → ℕ → ℕ → Walk
skip_sections bytes frames offset = and_then (skip bytes 8 offset) (λ a.
    and_then (skip bytes (frames * 12) a) (λ b. and_then (skip_hash_history bytes frames b) (λ c.
      and_then (skip_keyframe_section bytes frames c)
        (λ d. and_then (skip_hash_history bytes frames d) (λ e. skip bytes 4 e)))))

pub failure : RecordingFmRegistersError → RecordingFmRegistersResult
failure error = record { error = error; registers = [] }

-- The bytes after the registers: from version 10 on, the id of the take.
abbrev pub tail_bytes : ℕ → ℕ
tail_bytes version = if leb take_id_recording_version version then take_id_bytes else 0

-- From the size of the registers on.
pub read_registers : List ℕ → ℕ → ℕ → ℕ → RecordingFmRegistersResult
unfolding failure
read_registers bytes version size begin =
    let after = add_u64 begin size in
    if not (size == 0) && not (size == recording_fm_register_bytes)
    then failure invalid_size
    else if not (has_bytes begin size (length bytes))
    then failure truncated_content
    else if leb take_id_recording_version version
        && not (has_bytes after take_id_bytes (length bytes))
    then failure truncated_content
    else if not (add_u64 after (tail_bytes version) == length bytes)
    then failure trailing_content
    else record { error = RecordingFmRegistersError.none; registers = take size (drop begin bytes) }

pub read_shadow : List ℕ → ℕ → Walk → RecordingFmRegistersResult
unfolding failure
read_shadow bytes version truncated = failure truncated_content
read_shadow bytes version in_section = failure invalid_section
read_shadow bytes version (at offset) =
    if has_bytes offset 4 (length bytes)
    then read_registers bytes version (read_u32_le bytes offset) (add_u64 offset 4)
    else failure truncated_content

pub decode_recording_fm_registers : List ℕ → RecordingLayout → RecordingFmRegistersResult
unfolding failure
decode_recording_fm_registers recording layout =
    if ltb layout.header.version recording_fm_registers_version
    then failure RecordingFmRegistersError.none
    else if not (has_bytes layout.inputs.offset layout.inputs.size (length recording))
    then failure invalid_layout
    else read_shadow recording layout.header.version (
        skip_sections recording layout.frame_count
          (add_u64 layout.inputs.offset layout.inputs.size))
