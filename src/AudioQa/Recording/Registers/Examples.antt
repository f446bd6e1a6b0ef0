-- ===== src/AudioQa/Recording/Registers/Examples.antt =====
-- The tail of a take of two frames (tools/audio_qa/recording_header.cpp).
use ayther_runtime.Prelude.{◌≡◌, ◌≤◌, ◌<◌, ◌⊎◌, refl, arith, []}
use ayther_runtime.AudioQa.Recording.{read_u32_le, has_bytes}
use ayther_runtime.AudioQa.Recording.Samples.{layout, recording}
use ayther_runtime.AudioQa.Recording.Registers.{
  RecordingFmRegistersError, and_then, skip, read_u32, skip_hash_history, skip_keyframe,
  skip_keyframes, skip_keyframe_section, skip_sections, failure, read_registers, read_shadow,
  decode_recording_fm_registers,
}
use ayther_runtime.AudioQa.Recording.Registers.End.{EndsTake, registers_end_take}

registers_decode :
    (decode_recording_fm_registers recording layout).error ≡ RecordingFmRegistersError.none
unfolding decode_recording_fm_registers read_shadow read_registers skip_sections
    skip_keyframe_section skip_keyframe skip_keyframes skip_hash_history read_u32 skip and_then
    has_bytes read_u32_le failure
registers_decode = refl

registers_end_take_example :
    ((layout.header.version < 9)
      × ((decode_recording_fm_registers recording layout).registers ≡ []))
    ⊎ ((9 ≤ layout.header.version)
        × EndsTake recording layout (decode_recording_fm_registers recording layout).registers)
registers_end_take_example = registers_end_take recording layout (omega arith) registers_decode
