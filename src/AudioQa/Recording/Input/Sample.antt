-- ===== src/AudioQa/Recording/Input/Sample.antt =====
-- A take of two frames can be read (tools/audio_qa/recording_input_source.cpp).
use ayther_runtime.Prelude.{refl, arith}
use ayther_runtime.AudioQa.Recording.Samples.{layout, before_inputs, masks}
use ayther_runtime.AudioQa.Recording.Input.Sequence.{Fits}

pub masks-Fits : Fits before_inputs masks layout
masks-Fits = record {
  are_masks = (omega arith, (omega arith, tt));
  some_frames = omega arith;
  few_frames = omega arith;
  offset_word = omega arith;
  counted = refl;
  inputs_after = refl;
  inputs_sized = refl;
}
