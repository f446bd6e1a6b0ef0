-- ===== src/AudioQa/Timeline/Compiled.antt =====
-- A timeline that compiles (tools/audio_qa/pad_timeline.cpp).
use mathlib.Core.Path.{subst}
use ayther_runtime.Prelude.{
  ℕ, ◌%◌, ◌≤◌, ◌≡◌, refl, sym, ap, ◌∙◌, Bool, true, List, [], ◌∷◌, ◌/◌, arith, length, All,
}
use ayther_runtime.Prelude.Int.{ℤ}
use ayther_runtime.Prelude.Word.{u32_mod}
use ayther_runtime.AudioQa.Timeline.{
  TimelineStep, TimelineCompileError, CompiledStepSpan, CompiledTimeline, TimelineCompileResult,
  Compiling, goes, rounds_to_zero, exceeds, bytes_of, compile_steps, finish_compile,
  compile_pad_timeline,
}
use ayther_runtime.AudioQa.Timeline.Expansion.{Chain, Sound, IsWord, steps_expand}
use ayther_runtime.AudioQa.Timeline.Steps.{expand, spans_from}
use ayther_runtime.AudioQa.Timeline.Buttons.{released, mask_of-released}
use ayther_runtime.AudioQa.Recording.Input.Sequence.{stored}

-- What is compiled from masks and spans.
abbrev pub whole : List ℕ → List CompiledStepSpan → CompiledTimeline
whole buttons spans = record {
  buttons = buttons;
  spans = spans;
  input_bytes = bytes_of buttons;
  frames = length buttons % u32_mod;
}

finish_passes :
    (c : Compiling)
    → (finish_compile c).error ≡ TimelineCompileError.none
    → (held : ℕ) × (buttons : List ℕ) × (spans : List CompiledStepSpan) × (c
        ≡ goes held buttons spans)
      × (1 ≤ length buttons)
      × ((finish_compile c).compiled ≡ whole buttons spans)
unfolding finish_compile
finish_passes (rounds_to_zero line buttons spans) e = ground arith
finish_passes (exceeds line buttons spans) e = ground arith
finish_passes (goes held buttons spans) e = (held, buttons, spans, refl, ground arith, ground arith)

compile_passes :
    (fps_accepted : Bool) (round_seconds : ℕ → ℤ) (steps : List TimelineStep)
    → (compile_pad_timeline fps_accepted round_seconds steps).error ≡ TimelineCompileError.none
    → (fps_accepted ≡ true)
      × (compile_pad_timeline fps_accepted round_seconds steps
          ≡ finish_compile (compile_steps round_seconds 0 0 [] [] steps))
unfolding compile_pad_timeline
compile_passes fps_accepted round_seconds steps e = ground arith

-- What a compiled timeline is: the masks that the steps give, 1 to 54,000 of them, stored as a take
-- stores them, and the spans that the steps give, which follow each other from the first frame to
-- the last.
pub record IsCompiled (round_seconds : ℕ → ℤ) (steps : List TimelineStep) (c : CompiledTimeline)
    : Type 0 where
  pub expanded : c.buttons ≡ expand round_seconds released steps
  pub some_frames : 1 ≤ length c.buttons
  pub few_frames : length c.buttons ≤ 54000
  pub counted : c.frames ≡ length c.buttons
  pub bytes_follow : c.input_bytes ≡ stored c.buttons
  pub placed : c.spans ≡ spans_from round_seconds 0 0 steps
  pub chained : Chain 0 c.spans c.frames

bytes-stored : (masks : List ℕ) → bytes_of masks ≡ stored masks
unfolding bytes_of
bytes-stored [] = refl
bytes-stored (mask ∷ masks) = ap (λ bytes. mask % 256 ∷ mask / 256 ∷ bytes) (bytes-stored masks)

whole-IsCompiled :
    (round_seconds : ℕ → ℤ) (steps : List TimelineStep) (buttons : List ℕ)
    (spans : List CompiledStepSpan)
    → buttons ≡ expand round_seconds released steps
    → 1 ≤ length buttons
    → Sound buttons spans
    → spans ≡ spans_from round_seconds 0 0 steps
    → IsCompiled round_seconds steps (whole buttons spans)
whole-IsCompiled round_seconds steps buttons spans x p s q =
    let n : length buttons % u32_mod ≡ length buttons = omega (arith, s.few) in
    record {
      expanded = x;
      some_frames = p;
      few_frames = s.few;
      counted = n;
      bytes_follow = bytes-stored buttons;
      placed = q;
      chained = subst (λ k. Chain 0 spans k) (sym n) s.chain;
    }

-- A timeline that compiles with no error has exactly the masks of the buttons that are held at each
-- frame: a down step holds its buttons until an up step lets them go, a wait shows what is held, and
-- a press its buttons as well, each for as long as the step lasts. They are 1 to 54,000; their bytes
-- are the two of each mask, the low one first, as a take stores them. There is one span for each wait
-- and press, with the number of the step and its frames, and none for the other steps; the spans are
-- not empty and follow each other from frame 0 to the last frame. That the frames of a step fit the
-- result of `llround` is a hypothesis.
pub compile-IsCompiled :
    (fps_accepted : Bool) (round_seconds : ℕ → ℤ) (steps : List TimelineStep)
    → All (IsWord round_seconds) steps
    → (compile_pad_timeline fps_accepted round_seconds steps).error ≡ TimelineCompileError.none
    → IsCompiled round_seconds steps
        (compile_pad_timeline fps_accepted round_seconds steps).compiled
compile-IsCompiled fps_accepted round_seconds steps w e =
    let c = compile_passes fps_accepted round_seconds steps e in
    let loop = compile_steps round_seconds 0 0 [] [] steps in
    let f = finish_passes loop (ap (λ (r : TimelineCompileResult). r.error) (sym c.1) ∙ e) in
    let s =
      steps_expand round_seconds steps 0 released [] [] f.0 f.1 f.2 w
        (record { few = omega arith; chain = refl })
        (ap (λ held. compile_steps round_seconds 0 held [] [] steps) mask_of-released ∙ f.3) in
    subst (IsCompiled round_seconds steps)
      (sym (ap (λ (r : TimelineCompileResult). r.compiled) c.1 ∙ f.5))
      (whole-IsCompiled round_seconds steps f.1 f.2 s.0 f.4 s.1 s.2)
