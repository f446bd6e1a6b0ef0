-- ===== src/AudioQa/Recording/Input/Sequence.antt =====
-- A take's inputs are read as they were written (tools/audio_qa/recording_input_source.cpp).
use mathlib.Core.Path.{subst}
use ayther_runtime.Prelude.{
  ℕ, zero, suc, ◌+◌, ◌*◌, ◌/◌, ◌%◌, ◌≤◌, ◌<◌, ◌≡◌, refl, sym, ap, ◌∙◌, Option, some, List, [], ◌∷◌,
  ◌++◌, arith, length, take, drop, length-append, All, emit,
}
use ayther_runtime.Prelude.Word.{u64_mod}
use ayther_runtime.AudioQa.Recording.{byte_at, has_bytes}
use ayther_runtime.AudioQa.Recording.Layout.{RecordingLayout}
use ayther_runtime.AudioQa.Recording.Input.{
  RecordingFrameInput, RecordingInputSource, RecordingInputSourceResult, RecordingInputSourceError,
  source_result, contains, initialize_recording_input_source, make_recording_input_source,
  exhausted, next, input, reads, word_at,
}

-- How a take stores the buttons of its frames: two bytes each, the low one first.
abbrev pub stored : List ℕ → List ℕ
stored [] = []
stored (mask ∷ masks) = mask % 256 ∷ mask / 256 ∷ stored masks

-- The frames of a take, numbered from a first one.
abbrev pub numbered : ℕ → List ℕ → List RecordingFrameInput
numbered k [] = []
numbered k (mask ∷ masks) = input k mask ∷ numbered (suc k) masks

abbrev pub IsMask : ℕ → Type 0
IsMask mask = mask < 65536

length-stored : (masks : List ℕ) → length (stored masks) ≡ 2 * length masks
length-stored [] = omega arith
length-stored (mask ∷ masks) = omega (arith, length-stored masks)

byte_at-append :
    (xs ys : List ℕ) (k offset : ℕ)
    → offset ≡ length xs + k
    → byte_at (xs ++ ys) offset ≡ byte_at ys k
byte_at-append [] ys k offset e = ap (byte_at ys) (omega arith)
byte_at-append (x ∷ xs) ys k zero e = ground arith
byte_at-append (x ∷ xs) ys k (suc offset) e = byte_at-append xs ys k offset (omega arith)

stored-append : (xs ys : List ℕ) → stored (xs ++ ys) ≡ stored xs ++ stored ys
stored-append [] ys = refl
stored-append (x ∷ xs) ys = ap (λ zs. x % 256 ∷ x / 256 ∷ zs) (stored-append xs ys)

take-append : (xs ys : List ℕ) → take (length xs) (xs ++ ys) ≡ xs
take-append [] ys = refl
take-append (x ∷ xs) ys = ap (λ zs. x ∷ zs) (take-append xs ys)

drop-append : (xs ys : List ℕ) → drop (length xs) (xs ++ ys) ≡ ys
drop-append [] ys = refl
drop-append (x ∷ xs) ys = drop-append xs ys

pub word_at-stored :
    (done rest : List ℕ) (mask : ℕ)
    → IsMask mask
    → word_at (stored done ++ stored (mask ∷ rest)) (length done * 2) ≡ mask
word_at-stored done rest mask h =
    let n = length-stored done in
    let low =
      byte_at-append (stored done) (stored (mask ∷ rest)) 0 (length done * 2) (omega arith) in
    let high =
      byte_at-append (stored done) (stored (mask ∷ rest)) 1 (length done * 2 + 1) (omega arith) in
    omega arith

-- A source that has given the inputs of some masks and has others to give.
pub record Stands (s : RecordingInputSource) (done rest : List ℕ) : Type 0 where
  pub stored_bytes : s.bytes ≡ stored done ++ stored rest
  pub all_frames : s.frame_count ≡ length done + length rest
  pub at_cursor : s.cursor ≡ length done
  pub few_frames : s.frame_count ≤ 54000

pub next_moves :
    (s : RecordingInputSource)
    → s.cursor < s.frame_count
    → s.frame_count ≤ 54000
    → next s
      ≡ (record s { cursor = suc s.cursor }, some (input s.cursor (word_at s.bytes (s.cursor * 2))))
unfolding next exhausted
next_moves s h k = ground arith

pub next_stops : (s : RecordingInputSource) → s.frame_count ≤ s.cursor → next s ≡ (s, Option.none)
unfolding next exhausted
next_stops s h = ground arith

pub length_end : (xs : List ℕ) (x : ℕ) → length (xs ++ (x ∷ [])) ≡ suc (length xs)
length_end xs x = omega (arith, length-append xs (x ∷ []))

append_end : (xs ys : List ℕ) (x : ℕ) → (xs ++ (x ∷ [])) ++ ys ≡ xs ++ (x ∷ ys)
append_end [] ys x = refl
append_end (y ∷ xs) ys x = ap (λ zs. y ∷ zs) (append_end xs ys x)

stored_end :
    (done rest : List ℕ) (mask : ℕ)
    → stored (done ++ (mask ∷ [])) ++ stored rest ≡ stored done ++ stored (mask ∷ rest)
stored_end [] rest mask = refl
stored_end (d ∷ done) rest mask = ap (λ zs. d % 256 ∷ d / 256 ∷ zs) (stored_end done rest mask)

pub advance-Stands :
    (s : RecordingInputSource) (done rest : List ℕ) (mask : ℕ)
    → Stands s done (mask ∷ rest)
    → Stands (record s { cursor = suc s.cursor }) (done ++ (mask ∷ [])) rest
advance-Stands s done rest mask v = record {
  stored_bytes = v.stored_bytes ∙ sym (stored_end done rest mask);
  all_frames = omega (arith, v.all_frames, length_end done mask);
  at_cursor = omega (arith, v.at_cursor, length_end done mask);
  few_frames = v.few_frames;
}

reads_rest :
    (n : ℕ) (s : RecordingInputSource) (done rest : List ℕ)
    → Stands s done rest
    → All IsMask rest
    → length rest ≤ n
    → reads n s ≡ numbered (length done) rest
unfolding reads
reads_rest zero s done [] v h l = refl
reads_rest zero s done (mask ∷ rest) v h l = ground arith
reads_rest (suc n) s done [] v h l =
    let e = next_stops s (omega (arith, v.all_frames, v.at_cursor)) in
    ap (λ p. emit p.1 (reads n p.0)) e ∙ reads_rest n s done [] v h (omega arith)
reads_rest (suc n) s done (mask ∷ rest) v h l =
    let e = next_moves s (omega (arith, v.all_frames, v.at_cursor)) v.few_frames in
    let w =
      ap (λ bytes. word_at bytes (s.cursor * 2)) v.stored_bytes
      ∙ ap (λ k. word_at (stored done ++ stored (mask ∷ rest)) (k * 2)) v.at_cursor
      ∙ word_at-stored done rest mask h.0 in
    let r =
      reads_rest n (record s { cursor = suc s.cursor }) (done ++ (mask ∷ [])) rest
        (advance-Stands s done rest mask v) h.1 (omega arith) in
    let s' : RecordingInputSource = record s { cursor = suc s.cursor } in
    ap (λ p. emit p.1 (reads n p.0)) e
    ∙ ap (λ b. input s.cursor b ∷ reads n s') w
    ∙ ap (λ k. input k mask ∷ reads n s') v.at_cursor
    ∙ ap (λ z. input (length done) mask ∷ z) (r ∙ ap (λ k. numbered k rest) (length_end done mask))

-- A take that stores the masks of its frames, anywhere in it.
abbrev pub holds : List ℕ → List ℕ → List ℕ → List ℕ
holds before masks after = before ++ (stored masks ++ after)

-- The source that is made where a layout is within its bounds.
abbrev pub source_of : List ℕ → RecordingLayout → RecordingInputSource
source_of recording layout = record {
  bytes = take layout.inputs.size (drop layout.inputs.offset recording);
  frame_count = layout.frame_count;
  cursor = 0;
}

pub make_works :
    (recording : List ℕ) (layout : RecordingLayout)
    → 1 ≤ layout.frame_count
    → layout.frame_count ≤ 54000
    → layout.inputs.size ≡ layout.frame_count * 2
    → layout.inputs.offset < u64_mod
    → layout.inputs.offset + layout.inputs.size ≤ length recording
    → make_recording_input_source recording layout
      ≡ source_result RecordingInputSourceError.none (source_of recording layout)
unfolding make_recording_input_source initialize_recording_input_source contains has_bytes
make_works recording layout few many size far within = ground arith

pub holds-source :
    (before masks after : List ℕ) (layout : RecordingLayout)
    → length masks ≤ 54000
    → layout.frame_count ≡ length masks
    → layout.inputs.offset ≡ length before
    → layout.inputs.size ≡ length masks * 2
    → Stands (source_of (holds before masks after) layout) [] masks
holds-source before masks after layout many frames offset size = record {
  stored_bytes =
      ap (λ k. take layout.inputs.size (drop k (holds before masks after))) offset
      ∙ ap (λ k. take k (drop (length before) (holds before masks after)))
          (omega (arith, size, length-stored masks))
      ∙ ap (take (length (stored masks))) (drop-append before (stored masks ++ after))
      ∙ take-append (stored masks) after;
  all_frames = omega (arith, frames);
  at_cursor = refl;
  few_frames = omega arith;
}

-- What a take that holds masks and a layout must meet to be read.
pub record Fits (before masks : List ℕ) (layout : RecordingLayout) : Type 0 where
  pub are_masks : All IsMask masks
  pub some_frames : 1 ≤ length masks
  pub few_frames : length masks ≤ 54000
  pub offset_word : length before < u64_mod
  pub counted : layout.frame_count ≡ length masks
  pub inputs_after : layout.inputs.offset ≡ length before
  pub inputs_sized : layout.inputs.size ≡ length masks * 2

module _ (before masks after : List ℕ) (layout : RecordingLayout)
    (f : Fits before masks layout) where
  pub made_source :
      make_recording_input_source (holds before masks after) layout
      ≡ source_result RecordingInputSourceError.none (source_of (holds before masks after) layout)
  made_source =
      make_works (holds before masks after) layout (omega (arith, f.counted, f.some_frames))
        (omega (arith, f.counted, f.few_frames)) (omega (arith, f.counted, f.inputs_sized))
        (omega (arith, f.inputs_after, f.offset_word))
        (omega (
          arith,
          f.inputs_after,
          f.inputs_sized,
          length-append before (stored masks ++ after),
          length-append (stored masks) after,
          length-stored masks,
        ))

  pub made-Stands :
      Stands (make_recording_input_source (holds before masks after) layout).source [] masks
  made-Stands =
      subst (λ (r : RecordingInputSourceResult). Stands r.source [] masks) (sym made_source)
        (holds-source before masks after layout f.few_frames f.counted f.inputs_after
          f.inputs_sized)

-- A source that is made for the place where a take stores the masks of 1 to 54,000 frames has no
-- error, and as many calls as there are frames, or more, give each frame's number and mask in turn,
-- then nothing.
pub reads-stored :
    (before masks after : List ℕ) (layout : RecordingLayout) (n : ℕ)
    → Fits before masks layout
    → length masks ≤ n
    → let made = make_recording_input_source (holds before masks after) layout in
      (made.error ≡ RecordingInputSourceError.none) × (reads n made.source ≡ numbered 0 masks)
reads-stored before masks after layout n f long = (
  ap (λ m. m.error) (made_source before masks after layout f),
  reads_rest n (make_recording_input_source (holds before masks after) layout).source [] masks
      (made-Stands before masks after layout f) f.are_masks long,
)
