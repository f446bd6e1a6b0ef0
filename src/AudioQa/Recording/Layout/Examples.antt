-- ===== src/AudioQa/Recording/Layout/Examples.antt =====
-- The layout of a take of two frames (tools/audio_qa/recording_header.cpp).
use ayther_runtime.Prelude.{◌≡◌, refl, length}
use ayther_runtime.AudioQa.Recording.{read_u32_le, has_bytes, has_magic, decode_recording_header}
use ayther_runtime.AudioQa.Recording.Samples.{recording}
use ayther_runtime.AudioQa.Recording.Layout.{
  RecordingLayoutError, read_field, block_after, read_block, decode_state, decode_words,
  decode_after_name, decode_after_game, checked, decode_recording_layout,
}
use ayther_runtime.AudioQa.Recording.Layout.Parts.{InOrder, decode_layout-InOrder}

recording_decodes :
    (decode_recording_layout recording (length recording)).error ≡ RecordingLayoutError.none
unfolding decode_recording_layout checked decode_after_game decode_after_name decode_words
    decode_state read_block block_after read_field decode_recording_header has_magic has_bytes
    read_u32_le
recording_decodes = refl

decode_layout-InOrder_example :
    InOrder (length recording) (decode_recording_layout recording (length recording)).layout
decode_layout-InOrder_example = decode_layout-InOrder recording (length recording) recording_decodes
