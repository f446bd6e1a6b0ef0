-- ===== src/AudioQa/Model/Mix/Overlap.antt =====
-- When two ranges share a sample frame (tools/audio_qa/mix_model.cpp).
use text.Mathlib.Text.{◌==◌ as str_eq}
use text.Mathlib.TextEquality.{eq_iff}
use ayther_runtime.Prelude.{
  ℕ, ◌≤◌, ◌<◌, ◌≡◌, ◌↔◌, inl, inr, true, some, arith, leb, leb→le, leb→lt, Bool-cases,
}
use ayther_runtime.AudioQa.Model.Mix.{SampleFrameRange, well_formed_range, overlaps}

-- A sample frame of a range.
abbrev pub IsIn : SampleFrameRange → ℕ → Type 0
IsIn r frame = (r.begin ≤ frame) × (frame < r.end)

-- Two well-formed ranges of one timeline at one rate.
abbrev pub Comparable : SampleFrameRange → SampleFrameRange → Type 0
Comparable l r =
    (well_formed_range l ≡ true)
    × (well_formed_range r ≡ true)
    × (l.timeline_id ≡ r.timeline_id)
    × (l.sample_rate ≡ r.sample_rate)

-- The greater of the two first frames is in both ranges.
shared_frame :
    (l r : SampleFrameRange)
    → l.begin < l.end
    → r.begin < r.end
    → l.begin < r.end
    → r.begin < l.end
    → (frame : ℕ) × IsIn l frame × IsIn r frame
shared_frame l r a b c d = elim (Bool-cases (leb l.begin r.begin)) [
  | inl y ↦ let k = leb→le l.begin r.begin y in (r.begin, (k, d), (omega arith, b))
  | inr n ↦ let k = leb→lt l.begin r.begin n in (l.begin, (omega arith, a), (omega arith, c))
]

-- Two ranges overlap exactly if they are well formed, on one timeline, at one rate, and some sample
-- frame is in both; an empty range overlaps none.
pub overlaps_iff :
    (l r : SampleFrameRange)
    → (overlaps l r ≡ some true) ↔ (Comparable l r × ((frame : ℕ) × IsIn l frame × IsIn r frame))
unfolding overlaps
overlaps_iff l r =
    let t = eq_iff l.timeline_id r.timeline_id in
    (
      λ h.
          let b : (l.begin < l.end) × (r.begin < r.end) × (l.begin < r.end) × (r.begin < l.end) =
            ground arith in
          let n : str_eq l.timeline_id r.timeline_id ≡ true = ground arith in
          ((ground arith, ground arith, t.0 n, ground arith), shared_frame l r b.0 b.1 b.2 b.3),
      λ (c, f). let n = t.1 c.2 in ground arith,
    )
