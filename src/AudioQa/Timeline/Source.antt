-- ===== src/AudioQa/Timeline/Source.antt =====
-- A compiled timeline drives the replay loop like a take (tools/audio_qa/pad_timeline.cpp with
-- recording_input_source.cpp).
use mathlib.Core.Path.{subst}
use ayther_runtime.Prelude.{
  ℕ, zero, suc, ◌*◌, ◌≤◌, ◌≡◌, refl, sym, ap, ◌∙◌, Bool, not, ◌&&◌, ◌||◌, replicate, List, [], ◌∷◌,
  arith, All, All-append,
}
use ayther_runtime.Prelude.Int.{ℤ}
use ayther_runtime.AudioQa.Recording.Input.{
  RecordingInputSourceError, RecordingInputSourceResult, make_recording_input_source, reads,
}
use ayther_runtime.AudioQa.Recording.Input.Sequence.{IsMask, Fits, stored, numbered, reads-stored}
use ayther_runtime.AudioQa.Timeline.{
  TimelineStepKind, wait, press, down, up, TimelineStep, TimelineCompileError, CompiledTimeline,
  compile_pad_timeline, timeline_input_layout, make_timeline_input_source,
}
use mathlib.Core.List.{append-nil}
use ayther_runtime.AudioQa.Timeline.Expansion.{IsWord}
use ayther_runtime.AudioQa.Timeline.Steps.{expand, expand_kind, lasting}
use ayther_runtime.AudioQa.Timeline.Buttons.{Held, released, has, mask_of, mask_of-lt}
use ayther_runtime.AudioQa.Timeline.Compiled.{IsCompiled, compile-IsCompiled}

replicate_masks : (n mask : ℕ) → IsMask mask → All IsMask (replicate n mask)
replicate_masks zero mask h = tt
replicate_masks (suc n) mask h = (h, replicate_masks n mask h)

mask_of-IsMask : (held : Held) → IsMask (mask_of 16 held)
mask_of-IsMask held = omega (arith, mask_of-lt 16 held)

module _ (round_seconds : ℕ → ℤ) where
  kind_masks :
      (kind : TimelineStepKind) (step : TimelineStep) (held : Held) (rest : Held → List ℕ)
      → ((h : Held) → All IsMask (rest h))
      → All IsMask (expand_kind round_seconds kind step held rest)
  unfolding expand_kind
  kind_masks down step held rest r = r (λ i. held i || has step.buttons i)
  kind_masks up step held rest r = r (λ i. held i && not (has step.buttons i))
  kind_masks wait step held rest r =
      let n = lasting round_seconds step.duration in
      let mask = mask_of 16 held in
      All-append IsMask (replicate n mask) (rest held)
        (replicate_masks n mask (mask_of-IsMask held)) (r held)
  kind_masks press step held rest r =
      let n = lasting round_seconds step.duration in
      let shown : Held = λ i. held i || has step.buttons i in
      let mask = mask_of 16 shown in
      All-append IsMask (replicate n mask) (rest held)
        (replicate_masks n mask (mask_of-IsMask shown)) (r held)

  expand_masks :
      (held : Held) (steps : List TimelineStep) → All IsMask (expand round_seconds held steps)
  unfolding expand
  expand_masks held [] = tt
  expand_masks held (step ∷ steps) =
      kind_masks step.kind step held (λ k. expand round_seconds k steps) (λ k. expand_masks k steps)

compiled-Fits :
    (round_seconds : ℕ → ℤ) (steps : List TimelineStep) (c : CompiledTimeline)
    → IsCompiled round_seconds steps c
    → Fits [] c.buttons (timeline_input_layout c)
unfolding timeline_input_layout
compiled-Fits round_seconds steps c v = record {
  are_masks = subst (All IsMask) (sym v.expanded) (expand_masks round_seconds released steps);
  some_frames = v.some_frames;
  few_frames = v.few_frames;
  offset_word = omega arith;
  counted = v.counted;
  inputs_after = refl;
  inputs_sized = ap (λ n. n * 2) v.counted;
}

-- A timeline that compiles with no error, the frames of each step being a word of 63 bits, gives an
-- input source with no error, and 54,000 or more calls of that source give each frame's number and
-- the mask of the buttons that are held at it, in order, then nothing: what was written in the
-- steps reaches the replay loop as if it had been recorded. Down and up steps hold buttons and let
-- them go, a wait shows what is held, and a press its buttons as well.
pub source_gives_steps :
    (fps_accepted : Bool) (round_seconds : ℕ → ℤ) (steps : List TimelineStep) (n : ℕ)
    → All (IsWord round_seconds) steps
    → (compile_pad_timeline fps_accepted round_seconds steps).error ≡ TimelineCompileError.none
    → 54000 ≤ n
    → let made =
        make_timeline_input_source
          (compile_pad_timeline fps_accepted round_seconds steps).compiled in
      (made.error ≡ RecordingInputSourceError.none)
      × (reads n made.source ≡ numbered 0 (expand round_seconds released steps))
unfolding make_timeline_input_source
source_gives_steps fps_accepted round_seconds steps n w e l =
    let c = (compile_pad_timeline fps_accepted round_seconds steps).compiled in
    let v = compile-IsCompiled fps_accepted round_seconds steps w e in
    let layout = timeline_input_layout c in
    let b = v.bytes_follow ∙ sym (append-nil (stored c.buttons)) in
    let r =
      reads-stored [] c.buttons [] layout n (compiled-Fits round_seconds steps c v)
        (omega (arith, v.few_frames)) in
    let m = ap (λ bytes. make_recording_input_source bytes layout) b in
    (
      ap (λ (x : RecordingInputSourceResult). x.error) m ∙ r.0,
      ap (λ (x : RecordingInputSourceResult). reads n x.source) m
          ∙ r.1
          ∙ ap (numbered 0) v.expanded,
    )
