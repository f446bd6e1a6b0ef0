-- ===== src/AudioQa/Timeline/Spans.antt =====
-- Which step a frame of a compiled timeline falls in (tools/audio_qa/pad_timeline.cpp).
use mathlib.Core.Path.{subst}
use ayther_runtime.Prelude.{
  ℕ, suc, ◌+◌, ◌≤◌, ◌<◌, ◌≡◌, ◌⊎◌, inl, inr, sym, Bool, Option, none, some, List, [], ◌∷◌, arith,
  All, ltb, Bool-cases, ltb→lt, ltb→le, ◌^◌,
}
use ayther_runtime.Prelude.Int.{ℤ}
use ayther_runtime.AudioQa.Timeline.{
  TimelineStep, TimelineCompileError, CompiledStepSpan, TimelinePosition, position_from,
  timeline_position, compile_pad_timeline,
}
use ayther_runtime.AudioQa.Timeline.Expansion.{Chain, IsWord}
use ayther_runtime.AudioQa.Timeline.Compiled.{compile-IsCompiled}

-- A position names a span that holds the frame: its place in the list, its step, and the frames from
-- this one to its end.
abbrev pub Names : ℕ → List CompiledStepSpan → ℕ → TimelinePosition → Type 0
Names index [] frame p = ⊥
Names index (s ∷ spans) frame p =
    ((p.span ≡ index)
      × (p.step ≡ s.step)
      × (s.first_frame ≤ frame)
      × (1 ≤ p.frames_left)
      × (frame + p.frames_left ≡ s.first_frame + s.frames))
    ⊎ Names (suc index) spans frame p

-- A position for each frame before the end, and none from the end on.
abbrev pub Located : List CompiledStepSpan → ℕ → ℕ → ℕ → Option TimelinePosition → Type 0
Located spans index end frame none = end ≤ frame
Located spans index end frame (some p) = (frame < end) × Names index spans frame p

Chain-grows : (a b : ℕ) (spans : List CompiledStepSpan) → Chain a spans b → a ≤ b
Chain-grows a b [] h = omega arith
Chain-grows a b (s ∷ spans) h = omega (arith, Chain-grows (a + s.frames) b spans h.2)

later-Located :
    (s : CompiledStepSpan) (spans : List CompiledStepSpan) (index b frame : ℕ)
    (o : Option TimelinePosition)
    → Located spans (suc index) b frame o
    → Located (s ∷ spans) index b frame o
later-Located s spans index b frame none h = h
later-Located s spans index b frame (some p) h = (h.0, inr h.1)

position-Located :
    (spans : List CompiledStepSpan) (index a b frame : ℕ)
    → Chain a spans b
    → b ≤ 54000
    → a ≤ frame
    → frame < 2 ^ 32
    → Located spans index b frame (position_from index spans frame)
unfolding position_from
position-Located [] index a b frame h l k w = omega arith
position-Located (s ∷ spans) index a b frame h l k w =
    let g = Chain-grows (a + s.frames) b spans h.2 in
    elim (Bool-cases (ltb frame (a + s.frames))) [
      | inl y ↦ let y' = ltb→lt frame (a + s.frames) y in ground arith
      | inr n ↦
          let n' = ltb→le frame (a + s.frames) n in
          let e : position_from index (s ∷ spans) frame ≡ position_from (suc index) spans frame =
            ground arith in
          subst (Located (s ∷ spans) index b frame) (sym e) (
            later-Located s spans index b frame (position_from (suc index) spans frame)
              (position-Located spans (suc index) (a + s.frames) b frame h.2 l n' w))
    ]

-- In a timeline that compiled with no error, the frames of each step being a word of 63 bits, every
-- frame before the end falls in a step: its position names a span that holds it, the span's place
-- and step, and how many frames of the step are left, at least one; and no 32-bit frame number from
-- the end on has a position.
pub position_iff_compiled :
    (fps_accepted : Bool) (round_seconds : ℕ → ℤ) (steps : List TimelineStep) (frame : ℕ)
    → All (IsWord round_seconds) steps
    → (compile_pad_timeline fps_accepted round_seconds steps).error ≡ TimelineCompileError.none
    → frame < 2 ^ 32
    → let c = (compile_pad_timeline fps_accepted round_seconds steps).compiled in
      Located c.spans 0 c.frames frame (timeline_position c frame)
unfolding timeline_position
position_iff_compiled fps_accepted round_seconds steps frame w e l =
    let c = (compile_pad_timeline fps_accepted round_seconds steps).compiled in
    let v = compile-IsCompiled fps_accepted round_seconds steps w e in
    position-Located c.spans 0 0 c.frames frame v.chained (omega (arith, v.counted, v.few_frames))
      (omega arith) l
