-- ===== src/AudioQa/Recording/Layout.antt =====
-- tools/audio_qa/recording_header.h and recording_header.cpp, `decode_recording_layout`: where the
-- parts of a recorded take stand. Its early returns are cases of a field that is there or not.
pub mod Parts
mod Examples
use ayther_runtime.Prelude.{
  ℕ, ◌*◌, Bool, not, ◌&&◌, ◌||◌, Option, some, List, length, ltb, ◌==◌, if◌then◌else◌,
}
use ayther_runtime.Prelude.Word.{add_u64}
use ayther_runtime.AudioQa.Recording.{
  RecordingHeaderError, RecordingHeader, RecordingHeaderResult, RecordingByteRange, read_u32_le,
  has_bytes, decode_recording_header, recording_fixed_header_bytes, max_recording_bytes,
  max_recording_state_bytes, min_recording_frames, max_recording_frames,
}

pub record RecordingLayout : Type 0 where
  pub header : RecordingHeader
  pub game_id : RecordingByteRange
  pub name : RecordingByteRange
  pub frame_count : ℕ
  pub raw_state_bytes : ℕ
  pub compressed_state : RecordingByteRange
  pub inputs : RecordingByteRange

pub data RecordingLayoutError : Type 0 where
  none invalid_header take_too_large truncated_content invalid_frame_count empty_initial_state :
      RecordingLayoutError
  initial_state_too_large empty_compressed_state : RecordingLayoutError

pub record RecordingLayoutResult : Type 0 where
  pub error : RecordingLayoutError
  pub header_error : RecordingHeaderError
  pub layout : RecordingLayout

abbrev pub range_at : ℕ → ℕ → RecordingByteRange
range_at offset size = record { offset = offset; size = size }

abbrev pub empty_layout : RecordingLayout
empty_layout = record {
  header = record { version = 0 };
  game_id = range_at 0 0;
  name = range_at 0 0;
  frame_count = 0;
  raw_state_bytes = 0;
  compressed_state = range_at 0 0;
  inputs = range_at 0 0;
}

abbrev pub refuse : RecordingLayoutError → RecordingLayoutResult
refuse error = record {
  error = error;
  header_error = RecordingHeaderError.none;
  layout = empty_layout;
}

-- The lambda `read_field`.
unfoldable pub read_field : List ℕ → ℕ → ℕ → Option ℕ
read_field header_bytes total_bytes offset =
    if not (has_bytes offset 4 total_bytes) || not (has_bytes offset 4 (length header_bytes))
    then Option.none
    else some (read_u32_le header_bytes offset)

-- The range of a text that stands after its length, where both are within the bytes.
unfoldable pub block_after : List ℕ → ℕ → ℕ → Option ℕ → Option RecordingByteRange
block_after header_bytes total_bytes cursor Option.none = Option.none
block_after header_bytes total_bytes cursor (some length') =
    let begin = add_u64 cursor 4 in
    if not (has_bytes begin length' total_bytes)
      || not (has_bytes begin length' (length header_bytes))
    then Option.none
    else some (range_at begin length')

unfoldable pub read_block : List ℕ → ℕ → ℕ → Option RecordingByteRange
unfolding block_after
read_block header_bytes total_bytes cursor =
    block_after header_bytes total_bytes cursor (read_field header_bytes total_bytes cursor)

-- `cursor += length` after a range.
abbrev pub end_of : RecordingByteRange → ℕ
end_of range = add_u64 range.offset range.size

-- From the check of the frame count on; the cursor is after the three words.
unfoldable pub decode_state :
    ℕ
    → RecordingHeader
    → RecordingByteRange
    → RecordingByteRange
    → ℕ
    → ℕ
    → ℕ
    → ℕ
    → RecordingLayoutResult
decode_state total_bytes header game_id name cursor frame_count raw_state_bytes compressed =
    let after_state = add_u64 cursor compressed in
    let input_bytes = frame_count * 2 in
    if ltb frame_count min_recording_frames || ltb max_recording_frames frame_count
    then refuse invalid_frame_count
    else if raw_state_bytes == 0
    then refuse empty_initial_state
    else if ltb max_recording_state_bytes raw_state_bytes
    then refuse initial_state_too_large
    else if compressed == 0
    then refuse empty_compressed_state
    else if not (has_bytes cursor compressed total_bytes)
    then refuse truncated_content
    else if not (has_bytes after_state input_bytes total_bytes)
    then refuse truncated_content
    else record {
      error = RecordingLayoutError.none;
      header_error = RecordingHeaderError.none;
      layout = record {
        header = header;
        game_id = game_id;
        name = name;
        frame_count = frame_count;
        raw_state_bytes = raw_state_bytes;
        compressed_state = range_at cursor compressed;
        inputs = range_at after_state input_bytes;
      };
    }

-- The frame count, the size of the state and the size of the compressed state.
unfoldable pub decode_words :
    ℕ
    → RecordingHeader
    → RecordingByteRange
    → RecordingByteRange
    → Option ℕ
    → Option ℕ
    → Option ℕ
    → RecordingLayoutResult
unfolding decode_state
decode_words total header game_id name (some frames) (some raw) (some compressed) =
    decode_state total header game_id name (add_u64 (end_of name) 12) frames raw compressed
decode_words total header game_id name (some frames) (some raw) Option.none =
    refuse truncated_content
decode_words total header game_id name (some frames) Option.none compressed =
    refuse truncated_content
decode_words total header game_id name Option.none raw compressed = refuse truncated_content

unfoldable pub decode_after_name :
    List ℕ
    → ℕ
    → RecordingHeader
    → RecordingByteRange
    → Option RecordingByteRange
    → RecordingLayoutResult
unfolding decode_words
decode_after_name bytes total header game_id Option.none = refuse truncated_content
decode_after_name bytes total header game_id (some name) =
    let cursor = end_of name in
    decode_words total header game_id name (read_field bytes total cursor)
      (read_field bytes total (add_u64 cursor 4)) (read_field bytes total (add_u64 cursor 8))

unfoldable pub decode_after_game :
    List ℕ → ℕ → RecordingHeader → Option RecordingByteRange → RecordingLayoutResult
unfolding decode_after_name
decode_after_game bytes total header Option.none = refuse truncated_content
decode_after_game bytes total header (some game_id) =
    decode_after_name bytes total header game_id (read_block bytes total (end_of game_id))

abbrev pub has_error : RecordingHeaderError → Bool
has_error RecordingHeaderError.none = Bool.false
has_error error = Bool.true

abbrev refuse_header : RecordingHeaderError → RecordingLayoutResult
refuse_header error = record { error = invalid_header; header_error = error; layout = empty_layout }

-- The first two checks, in front of what is decoded after them.
unfoldable pub checked : ℕ → RecordingHeaderError → RecordingLayoutResult → RecordingLayoutResult
checked total_bytes error rest =
    if ltb max_recording_bytes total_bytes
    then refuse take_too_large
    else if has_error error
    then refuse_header error
    else rest

-- The second overload; the first one passes the length of the bytes as the total.
unfoldable pub decode_recording_layout : List ℕ → ℕ → RecordingLayoutResult
decode_recording_layout header_bytes total_bytes =
    let decoded = decode_recording_header header_bytes in
    checked total_bytes decoded.error (
      decode_after_game header_bytes total_bytes decoded.header
        (read_block header_bytes total_bytes recording_fixed_header_bytes))

unfoldable pub decode_whole_layout : List ℕ → RecordingLayoutResult
decode_whole_layout bytes = decode_recording_layout bytes (length bytes)
