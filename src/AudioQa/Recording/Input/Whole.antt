-- ===== src/AudioQa/Recording/Input/Whole.antt =====
-- A layout decoded from a whole take always has its inputs (tools/audio_qa/recording_header.cpp and
-- recording_input_source.cpp).
use ayther_runtime.Prelude.{
  ℕ, zero, suc, ◌+◌, ◌*◌, ◌≤◌, ◌≡◌, refl, ap, ◌∙◌, List, [], ◌∷◌, arith, length, take, drop,
}
use ayther_runtime.AudioQa.Recording.Layout.{RecordingLayoutError, decode_whole_layout}
use ayther_runtime.AudioQa.Recording.Layout.Parts.{decode_layout-InOrder, total_bounded}
use ayther_runtime.AudioQa.Recording.Input.{RecordingInputSourceError, make_recording_input_source}
use ayther_runtime.AudioQa.Recording.Input.Sequence.{make_works}

length-take_within : (k : ℕ) (bytes : List ℕ) → k ≤ length bytes → length (take k bytes) ≡ k
length-take_within zero bytes h = refl
length-take_within (suc k) [] h = ground arith
length-take_within (suc k) (b ∷ bytes) h = omega (arith, length-take_within k bytes (omega arith))

length-span :
    (offset size : ℕ) (bytes : List ℕ)
    → offset + size ≤ length bytes
    → length (take size (drop offset bytes)) ≡ size
length-span zero size bytes h = length-take_within size bytes (omega arith)
length-span (suc offset) size [] h = ground arith
length-span (suc offset) size (b ∷ bytes) h = length-span offset size bytes (omega arith)

-- A take whose layout decodes with no error gives an input source with no error, which has a frame
-- for each one that the layout counts and stands before the first: no take passes the layout and is
-- then refused by the input source.
pub decoded_take_has_inputs :
    (recording : List ℕ)
    → (decode_whole_layout recording).error ≡ RecordingLayoutError.none
    → let layout = (decode_whole_layout recording).layout in
      let made = make_recording_input_source recording layout in
      (made.error ≡ RecordingInputSourceError.none)
      × (made.source.frame_count ≡ layout.frame_count)
      × (length made.source.bytes ≡ layout.frame_count * 2)
      × (made.source.cursor ≡ 0)
unfolding decode_whole_layout
decoded_take_has_inputs recording e =
    let layout = (decode_whole_layout recording).layout in
    let o = decode_layout-InOrder recording (length recording) e in
    let t = total_bounded recording (length recording) e in
    let within = o.inputs_within in
    let m =
      make_works recording layout o.frames_bounded.0 o.frames_bounded.1 o.input_per_frame
        (omega arith) within in
    (
      ap (λ r. r.error) m,
      ap (λ r. r.source.frame_count) m,
      ap (λ r. length r.source.bytes) m
          ∙ length-span layout.inputs.offset layout.inputs.size recording within
          ∙ o.input_per_frame,
      ap (λ r. r.source.cursor) m,
    )
