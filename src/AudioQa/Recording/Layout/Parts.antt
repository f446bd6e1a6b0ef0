-- ===== src/AudioQa/Recording/Layout/Parts.antt =====
-- The parts of a take follow each other within it (tools/audio_qa/recording_header.cpp).
use mathlib.Core.Path.{subst}
use ayther_runtime.Prelude.{ℕ, ◌+◌, ◌*◌, ◌≤◌, ◌≡◌, refl, sym, ap, ◌∙◌, Option, some, List, arith}
use ayther_runtime.Prelude.Word.{add_u64}
use ayther_runtime.AudioQa.Recording.{
  RecordingHeaderError, RecordingHeader, RecordingByteRange, has_bytes, decode_recording_header,
}
use ayther_runtime.AudioQa.Recording.Layout.{
  RecordingLayout, RecordingLayoutError, RecordingLayoutResult, read_field, block_after, read_block,
  decode_state, decode_words, decode_after_name, decode_after_game, decode_recording_layout, end_of,
  checked,
}

-- A length, two texts, three words, the state and the inputs, one after the other.
pub record InOrder (total : ℕ) (l : RecordingLayout) : Type 0 where
  pub version_supported : (2 ≤ l.header.version) × (l.header.version ≤ 10)
  pub game_after_header : l.game_id.offset ≡ 12
  pub name_after_game : l.name.offset ≡ l.game_id.offset + l.game_id.size + 4
  pub state_after_name : l.compressed_state.offset ≡ l.name.offset + l.name.size + 12
  pub inputs_after_state : l.inputs.offset ≡ l.compressed_state.offset + l.compressed_state.size
  pub inputs_within : l.inputs.offset + l.inputs.size ≤ total
  pub frames_bounded : (1 ≤ l.frame_count) × (l.frame_count ≤ 54000)
  pub input_per_frame : l.inputs.size ≡ l.frame_count * 2
  pub state_bounded : (1 ≤ l.raw_state_bytes) × (l.raw_state_bytes ≤ 67108864)
  pub compressed_some : 1 ≤ l.compressed_state.size

abbrev Supported : RecordingHeader → Type 0
Supported header = (2 ≤ header.version) × (header.version ≤ 10)

module _ (bytes : List ℕ) (total : ℕ) (h : total ≤ 67108864) where
  read_block-within :
      (cursor : ℕ) (r : RecordingByteRange)
      → read_block bytes total cursor ≡ some r
      → (r.offset ≡ cursor + 4) × (r.offset + r.size ≤ total)
  unfolding read_block block_after read_field has_bytes
  read_block-within cursor r e = ground arith

  module _ (header : RecordingHeader) (supported : Supported header) where
    decode_state-InOrder :
        (game_id name : RecordingByteRange) (frames raw compressed : ℕ)
        → game_id.offset ≡ 12
        → name.offset ≡ game_id.offset + game_id.size + 4
        → name.offset + name.size ≤ total
        → (decode_state total header game_id name
            (name.offset + name.size + 12)
            frames
            raw
            compressed).error
          ≡ RecordingLayoutError.none
        → InOrder total
            (decode_state total header game_id name
              (name.offset + name.size + 12)
              frames
              raw
              compressed).layout
    unfolding decode_state has_bytes
    decode_state-InOrder game_id name frames raw compressed g n w e = ground arith

    decode_words-InOrder :
        (game_id name : RecordingByteRange) (frames raw compressed : Option ℕ)
        → game_id.offset ≡ 12
        → name.offset ≡ game_id.offset + game_id.size + 4
        → name.offset + name.size ≤ total
        → (decode_words total header game_id name frames raw compressed).error
          ≡ RecordingLayoutError.none
        → InOrder total (decode_words total header game_id name frames raw compressed).layout
    unfolding decode_words decode_state has_bytes
    decode_words-InOrder game_id name (some f) (some r) (some c) g n w e = ground arith
    decode_words-InOrder game_id name (some f) (some r) Option.none g n w e = ground arith
    decode_words-InOrder game_id name (some f) Option.none c g n w e = ground arith
    decode_words-InOrder game_id name Option.none r c g n w e = ground arith

    decode_after_name-InOrder :
        (game_id : RecordingByteRange) (name : Option RecordingByteRange)
        → game_id.offset ≡ 12
        → game_id.offset + game_id.size ≤ total
        → name ≡ read_block bytes total (end_of game_id)
        → (decode_after_name bytes total header game_id name).error ≡ RecordingLayoutError.none
        → InOrder total (decode_after_name bytes total header game_id name).layout
    unfolding decode_after_name
    decode_after_name-InOrder game_id Option.none g w n e = ground arith
    decode_after_name-InOrder game_id (some name) g w n e =
        let b = read_block-within (end_of game_id) name (sym n) in
        decode_words-InOrder game_id name (read_field bytes total (end_of name))
          (read_field bytes total (add_u64 (end_of name) 4))
          (read_field bytes total (add_u64 (end_of name) 8)) g (omega arith) (omega arith) e

    decode_after_game-InOrder :
        (game_id : Option RecordingByteRange)
        → game_id ≡ read_block bytes total 8
        → (decode_after_game bytes total header game_id).error ≡ RecordingLayoutError.none
        → InOrder total (decode_after_game bytes total header game_id).layout
    unfolding decode_after_game
    decode_after_game-InOrder Option.none g e = ground arith
    decode_after_game-InOrder (some game_id) g e =
        let b = read_block-within 8 game_id (sym g) in
        decode_after_name-InOrder game_id (read_block bytes total (end_of game_id)) (omega arith)
          (omega arith) refl e

header-Supported :
    (bytes : List ℕ)
    → (decode_recording_header bytes).error ≡ RecordingHeaderError.none
    → Supported (decode_recording_header bytes).header
unfolding decode_recording_header
header-Supported bytes e = ground arith

-- What the first checks of the layout let through.
passes_checks :
    (total : ℕ) (error : RecordingHeaderError) (rest : RecordingLayoutResult)
    → (checked total error rest).error ≡ RecordingLayoutError.none
    → (total ≤ 67108864) × (error ≡ RecordingHeaderError.none) × (checked total error rest ≡ rest)
unfolding checked
passes_checks total error rest e = ground arith

-- A take that decodes is not larger than 64 MiB.
pub total_bounded :
    (bytes : List ℕ) (total : ℕ)
    → (decode_recording_layout bytes total).error ≡ RecordingLayoutError.none
    → total ≤ 67108864
unfolding decode_recording_layout
total_bounded bytes total e = (passes_checks total _ _ e).0

-- Of a take that decodes with no error, the version is one of those supported, the texts, the words,
-- the compressed state and the inputs follow each other without a gap, the inputs end within the
-- take and have two bytes for each of 1 to 54,000 frames, and the state has 1 byte to 64 MiB.
pub decode_layout-InOrder :
    (bytes : List ℕ) (total : ℕ)
    → (decode_recording_layout bytes total).error ≡ RecordingLayoutError.none
    → InOrder total (decode_recording_layout bytes total).layout
unfolding decode_recording_layout
decode_layout-InOrder bytes total e =
    let decoded = decode_recording_header bytes in
    let game_id = read_block bytes total 8 in
    let rest = decode_after_game bytes total decoded.header game_id in
    let c = passes_checks total decoded.error rest e in
    subst (λ (r : RecordingLayoutResult). InOrder total r.layout) (sym c.2)
      (decode_after_game-InOrder bytes total c.0 decoded.header (header-Supported bytes c.1) game_id
        refl (ap (λ (r : RecordingLayoutResult). r.error) (sym c.2) ∙ e))
