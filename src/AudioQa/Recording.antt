-- ===== src/AudioQa/Recording.antt =====
-- tools/audio_qa/recording_header.h and recording_header.cpp: the header and the layout of a recorded
-- take. Bytes are natural numbers; that each is below 256 is a hypothesis where it matters.
pub mod Layout
pub mod Registers
pub mod Input
pub mod Samples
use ayther_runtime.Prelude.{
  ℕ, zero, suc, ◌+◌, ◌-◌, ◌*◌, Bool, true, false, not, ◌&&◌, ◌||◌, Option, some, List, [], ◌∷◌,
  length, take, drop, ltb, leb, ◌==◌, if◌then◌else◌,
}

abbrev pub recording_fixed_header_bytes : ℕ
recording_fixed_header_bytes = 8

abbrev pub oldest_supported_recording_version : ℕ
oldest_supported_recording_version = 2

abbrev pub current_recording_version : ℕ
current_recording_version = 10

abbrev pub max_recording_bytes : ℕ
max_recording_bytes = 64 * 1024 * 1024

abbrev pub max_recording_state_bytes : ℕ
max_recording_state_bytes = 64 * 1024 * 1024

abbrev pub min_recording_frames : ℕ
min_recording_frames = 1

abbrev pub max_recording_frames : ℕ
max_recording_frames = 54000

pub data RecordingHeaderError : Type 0 where
  none empty_take truncated_header invalid_magic unsupported_version : RecordingHeaderError

pub record RecordingHeader : Type 0 where
  pub version : ℕ

pub record RecordingHeaderResult : Type 0 where
  pub error : RecordingHeaderError
  pub header : RecordingHeader

pub record RecordingByteRange : Type 0 where
  pub offset : ℕ
  pub size : ℕ

-- `bytes[offset]`, which the source reads only within the bytes.
abbrev pub byte_at : List ℕ → ℕ → ℕ
byte_at [] offset = 0
byte_at (b ∷ bytes) zero = b
byte_at (b ∷ bytes) (suc offset) = byte_at bytes offset

-- The bytes are disjoint bits, so `|=` adds them.
unfoldable pub read_u32_le : List ℕ → ℕ → ℕ
read_u32_le bytes offset =
    byte_at bytes offset
    + 256
      * (byte_at bytes (offset + 1)
          + 256 * (byte_at bytes (offset + 2) + 256 * byte_at bytes (offset + 3)))

unfoldable pub has_bytes : ℕ → ℕ → ℕ → Bool
has_bytes offset count limit = leb offset limit && leb count (limit - offset)

-- The loop that compares the magic bytes.
pub has_magic : List ℕ → Bool
has_magic bytes =
    (byte_at bytes 0 == 65)
    && ((byte_at bytes 1 == 82) && ((byte_at bytes 2 == 80) && (byte_at bytes 3 == 49)))

abbrev header_result : RecordingHeaderError → ℕ → RecordingHeaderResult
header_result error version = record { error = error; header = record { version = version } }

unfoldable pub decode_recording_header : List ℕ → RecordingHeaderResult
unfolding has_magic
decode_recording_header bytes =
    let version = read_u32_le bytes 4 in
    if length bytes == 0
    then header_result empty_take 0
    else if ltb (length bytes) recording_fixed_header_bytes
    then header_result truncated_header 0
    else if not (has_magic bytes)
    then header_result invalid_magic 0
    else if ltb version oldest_supported_recording_version || ltb current_recording_version version
    then header_result unsupported_version version
    else header_result RecordingHeaderError.none version
