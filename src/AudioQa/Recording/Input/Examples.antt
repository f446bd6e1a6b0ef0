-- ===== src/AudioQa/Recording/Input/Examples.antt =====
-- The inputs of a take of two frames (tools/audio_qa/recording_input_source.cpp).
use ayther_runtime.Prelude.{◌≡◌, refl, length, arith, ◌*◌}
use ayther_runtime.AudioQa.Recording.{read_u32_le, has_bytes, has_magic, decode_recording_header}
use ayther_runtime.AudioQa.Recording.Samples.{layout, recording, before_inputs, masks, tail}
use ayther_runtime.AudioQa.Recording.Layout.{
  RecordingLayoutError, read_field, block_after, read_block, decode_state, decode_words,
  decode_after_name, decode_after_game, checked, decode_recording_layout, decode_whole_layout,
}
use ayther_runtime.AudioQa.Recording.Input.{
  RecordingInputSourceError, make_recording_input_source, reads,
}
use ayther_runtime.AudioQa.Recording.Input.Sequence.{holds, numbered, reads-stored}
use ayther_runtime.AudioQa.Recording.Input.Sample.{masks-Fits}
use ayther_runtime.AudioQa.Recording.Input.Whole.{decoded_take_has_inputs}

recording_decodes : (decode_whole_layout recording).error ≡ RecordingLayoutError.none
unfolding decode_whole_layout decode_recording_layout checked decode_after_game decode_after_name
    decode_words decode_state read_block block_after read_field decode_recording_header has_magic
    has_bytes read_u32_le
recording_decodes = refl

decoded_take_has_inputs_example :
    let layout = (decode_whole_layout recording).layout in
    let made = make_recording_input_source recording layout in
    (made.error ≡ RecordingInputSourceError.none)
    × (made.source.frame_count ≡ layout.frame_count)
    × (length made.source.bytes ≡ layout.frame_count * 2)
    × (made.source.cursor ≡ 0)
decoded_take_has_inputs_example = decoded_take_has_inputs recording recording_decodes

reads-stored_example :
    let made = make_recording_input_source (holds before_inputs masks tail) layout in
    (made.error ≡ RecordingInputSourceError.none) × (reads 3 made.source ≡ numbered 0 masks)
reads-stored_example = reads-stored before_inputs masks tail layout 3 masks-Fits (omega arith)
