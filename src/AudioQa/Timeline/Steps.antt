-- ===== src/AudioQa/Timeline/Steps.antt =====
-- What the steps of a timeline mean, read on their own (tools/audio_qa/pad_timeline.h).
use ayther_runtime.Prelude.{
  ℕ, suc, ◌+◌, Option, none, some, List, [], ◌∷◌, ◌++◌, replicate, ◌≡◌, refl, arith, not, ◌&&◌,
  ◌||◌,
}
use ayther_runtime.Prelude.Int.{ℤ, pos, negsuc}
use ayther_runtime.AudioQa.Timeline.{
  TimelineStepKind, wait, press, down, up, TimelineStep, TimelineDuration, TimelineDurationUnit,
  CompiledStepSpan, span, duration_frames, step_frames,
}
use ayther_runtime.AudioQa.Timeline.Buttons.{Held, has, mask_of}

-- The frames of a step: 4 where it gives no duration, the frames it gives, or the whole number of
-- frames that its seconds come to, a negative number counting as none.
abbrev pub at_least_none : ℤ → ℕ
at_least_none (pos n) = n
at_least_none (negsuc n) = 0

abbrev pub in_unit : (ℕ → ℤ) → TimelineDurationUnit → TimelineDuration → ℕ
in_unit round_seconds TimelineDurationUnit.frames d = d.frames
in_unit round_seconds TimelineDurationUnit.seconds d = at_least_none (round_seconds d.seconds)

abbrev pub lasting : (ℕ → ℤ) → Option TimelineDuration → ℕ
lasting round_seconds none = 4
lasting round_seconds (some d) = in_unit round_seconds d.unit d

-- The buttons of each frame, from the steps alone. A button is held from the step that presses it
-- down to the one that lets it up; a wait shows what is held, and a press its buttons as well.
module _ (round_seconds : ℕ → ℤ) where
  unfoldable pub expand_kind : TimelineStepKind → TimelineStep → Held → (Held → List ℕ) → List ℕ
  expand_kind down step held k = k (λ i. held i || has step.buttons i)
  expand_kind up step held k = k (λ i. held i && not (has step.buttons i))
  expand_kind wait step held k =
      replicate (lasting round_seconds step.duration) (mask_of 16 held) ++ k held
  expand_kind press step held k =
      replicate (lasting round_seconds step.duration)
        (mask_of 16 (λ i. held i || has step.buttons i))
      ++ k held

  unfoldable pub expand : Held → List TimelineStep → List ℕ
  expand held [] = []
  expand held (step ∷ steps) = expand_kind step.kind step held (λ h. expand h steps)

-- The spans of the steps, from the number of a step and a frame on: one for each wait and press, and
-- none for the others.
module _ (round_seconds : ℕ → ℤ) where
  unfoldable pub kind_spans :
      TimelineStepKind → TimelineStep → ℕ → ℕ → (ℕ → List CompiledStepSpan) → List CompiledStepSpan
  kind_spans down step index first k = k first
  kind_spans up step index first k = k first
  kind_spans wait step index first k =
      let n = lasting round_seconds step.duration in span index first n ∷ k (first + n)
  kind_spans press step index first k =
      let n = lasting round_seconds step.duration in span index first n ∷ k (first + n)

  unfoldable pub spans_from : ℕ → ℕ → List TimelineStep → List CompiledStepSpan
  spans_from index first [] = []
  spans_from index first (step ∷ steps) =
      kind_spans step.kind step index first (λ f. spans_from (suc index) f steps)

unit_lasts :
    (round_seconds : ℕ → ℤ) (unit : TimelineDurationUnit) (d : TimelineDuration)
    → duration_frames round_seconds unit d ≡ in_unit round_seconds unit d
unfolding duration_frames
unit_lasts round_seconds TimelineDurationUnit.frames d = refl
unit_lasts round_seconds TimelineDurationUnit.seconds d = ground arith

pub step_lasts :
    (round_seconds : ℕ → ℤ) (step : TimelineStep)
    → step_frames round_seconds step ≡ lasting round_seconds step.duration
unfolding step_frames duration_frames
step_lasts round_seconds step = ground (arith, unit_lasts round_seconds)
