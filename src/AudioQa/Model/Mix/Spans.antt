-- ===== src/AudioQa/Model/Mix/Spans.antt =====
-- What the participants of a well-formed span are (tools/audio_qa/mix_model.cpp).
use mathlib.Core.Path.{subst}
use ayther_runtime.Prelude.{
  ◌≤◌, ◌<◌, ◌≡◌, ◌≢◌, refl, sym, true, false, List, [], ◌∷◌, arith, All, All-map,
}
use text.Mathlib.Text.{◌==◌ as str_eq}
use text.Mathlib.TextEquality.{eq_iff}
use Prim.Native.String.{String}
use ayther_runtime.AudioQa.Model.Mix.{
  OccurrenceId, SampleFrameRange, MixParticipant, MixSpan, well_formed_range, fits, same_id,
  repeats, participants_fit, well_formed_span,
}

-- A participant that sounds, within a range and on its timeline, of a run.
abbrev pub SoundsWithin : String → SampleFrameRange → MixParticipant → Type 0
SoundsWithin run range p =
    (p.occurrence_id.run_id ≡ run)
    × (p.mix_range.timeline_id ≡ range.timeline_id)
    × (p.mix_range.sample_rate ≡ range.sample_rate)
    × (range.begin ≤ p.mix_range.begin)
    × (p.mix_range.begin < p.mix_range.end)
    × (p.mix_range.end ≤ range.end)

-- No two of the participants have the same occurrence.
abbrev pub AllDiffer : List MixParticipant → Type 0
AllDiffer [] = Unit {0}
AllDiffer (p ∷ later) = All (λ q. p.occurrence_id ≢ q.occurrence_id) later × AllDiffer later

fits-SoundsWithin :
    (run : String) (range : SampleFrameRange) (p : MixParticipant)
    → fits run range p ≡ true
    → SoundsWithin run range p
unfolding fits well_formed_range
fits-SoundsWithin run range p h =
    let a = eq_iff p.occurrence_id.run_id run in
    let b = eq_iff p.mix_range.timeline_id range.timeline_id in
    let n : (str_eq p.occurrence_id.run_id run ≡ true)
        × (str_eq p.mix_range.timeline_id range.timeline_id ≡ true) =
      ground arith in
    (a.0 n.0, b.0 n.1, ground arith, ground arith, ground arith, ground arith)

same_id_refl : (id : OccurrenceId) → same_id id id ≡ true
unfolding same_id
same_id_refl id = let n = (eq_iff id.run_id id.run_id).1 refl in ground arith

not_repeats :
    (id : OccurrenceId) (earlier : List MixParticipant)
    → repeats id earlier ≡ false
    → All (λ p. p.occurrence_id ≢ id) earlier
unfolding repeats
not_repeats id [] h = tt
not_repeats id (p ∷ earlier) h = (
  λ e.
      let r : same_id p.occurrence_id id ≡ true =
        subst (λ k. same_id k id ≡ true) (sym e) (same_id_refl id) in
      ground arith,
  not_repeats id earlier (ground arith),
)

-- A participant has another occurrence than those before it.
abbrev After : List MixParticipant → MixParticipant → Type 0
After earlier q = All (λ p. p.occurrence_id ≢ q.occurrence_id) earlier

participants :
    (run : String) (range : SampleFrameRange) (earlier ps : List MixParticipant)
    → participants_fit run range earlier ps ≡ true
    → All (SoundsWithin run range) ps × AllDiffer ps × All (After earlier) ps
unfolding participants_fit
participants run range earlier [] h = (tt, tt, tt)
participants run range earlier (p ∷ later) h =
    let f : fits run range p ≡ true = ground arith in
    let n : repeats p.occurrence_id earlier ≡ false = ground arith in
    let r : participants_fit run range (p ∷ earlier) later ≡ true = ground arith in
    let v = participants run range (p ∷ earlier) later r in
    (
      (fits-SoundsWithin run range p f, v.0),
      (All-map (λ q a. a.0) later v.2, v.1),
      (not_repeats p.occurrence_id earlier n, All-map (λ q a. a.1) later v.2),
    )

-- In a well-formed span, each participant is of the span's run and sounds for at least one sample
-- frame within the span's range, on its timeline and at its rate, and no two participants are the
-- same occurrence.
pub span_participants :
    (span : MixSpan)
    → well_formed_span span ≡ true
    → All (SoundsWithin span.run_id span.mix_range) span.participants × AllDiffer span.participants
unfolding well_formed_span
span_participants span h =
    let f : participants_fit span.run_id span.mix_range [] span.participants ≡ true =
      ground arith in
    let v = participants span.run_id span.mix_range [] span.participants f in (v.0, v.1)
