-- ===== src/AudioQa/Model/Mix.antt =====
-- tools/audio_qa/mix_model.h and mix_model.cpp: ranges of sample frames, occurrences of a track and
-- spans of the mix. A gain is the 32 bits of its float.
pub mod Overlap
pub mod Spans
mod Examples
use Prim.Native.String.{String}
use text.Mathlib.Text.{◌==◌ as str_eq}
use ayther_runtime.Prelude.{
  ℕ, zero, suc, ◌/◌, ◌%◌, Bool, true, false, not, ◌&&◌, ◌||◌, Option, none, some, List, [], ◌∷◌,
  length, ltb, leb, ◌==◌, if◌then◌else◌,
}
use ayther_runtime.AudioQa.Model.{
  Field, FactId, Cause, fact, preexisting_context, identifier, consistent_availability,
  unless_absent, all, of_run, max_fact_causes, max_mix_participants,
}

pub record OccurrenceId : Type 0 where
  pub run_id : String
  pub sequence : ℕ

pub record TrackPosition : Type 0 where
  pub sample_frame : ℕ
  pub sample_rate : ℕ

pub record SampleFrameRange : Type 0 where
  pub timeline_id : String
  pub sample_rate : ℕ
  pub begin : ℕ
  pub end : ℕ

pub record Occurrence : Type 0 where
  pub id : OccurrenceId
  pub business_key : ℕ
  pub track_id : Field String
  pub assignment_id : Field String
  pub start_causes : List Cause
  pub position : Field TrackPosition
  pub loop_region : Field SampleFrameRange
  pub gain : Field ℕ
  pub muted : Field Bool
  pub final_reason : Field String

pub record MixParticipant : Type 0 where
  pub occurrence_id : OccurrenceId
  pub mix_range : SampleFrameRange
  pub position_begin : Field TrackPosition
  pub position_end : Field TrackPosition
  pub gain_begin : Field ℕ
  pub gain_end : Field ℕ
  pub muted : Field Bool

pub data OriginalAudio : Type 0 where
  unknown present suppressed absent : OriginalAudio

pub record MixSpan : Type 0 where
  pub run_id : String
  pub span_id : String
  pub mix_range : SampleFrameRange
  pub output_range : Field SampleFrameRange
  pub original_audio : OriginalAudio
  pub participants : List MixParticipant
  pub facts : List FactId

unfoldable pub valid_id : OccurrenceId → Bool
valid_id id = identifier id.run_id && not (id.sequence == 0)

-- `std::isfinite` of a 32-bit float: not all bits of the exponent are set.
abbrev pub is_finite : ℕ → Bool
is_finite bits = not (bits / 8388608 % 256 == 255)

unfoldable pub well_formed_range : SampleFrameRange → Bool
well_formed_range range =
    identifier range.timeline_id && (ltb 0 range.sample_rate && leb range.begin range.end)

unfoldable pub valid_position : Field TrackPosition → Bool
valid_position position =
    consistent_availability position && unless_absent position.value (λ p. ltb 0 p.sample_rate)

unfoldable pub valid_range : Field SampleFrameRange → Bool
valid_range range = consistent_availability range && unless_absent range.value well_formed_range

unfoldable pub valid_gain : Field ℕ → Bool
valid_gain gain = consistent_availability gain && unless_absent gain.value is_finite

unfoldable pub valid_text : Field String → Bool
valid_text id = consistent_availability id && unless_absent id.value identifier

unfoldable pub overlaps : SampleFrameRange → SampleFrameRange → Option Bool
overlaps left right =
    if not (well_formed_range left)
      || (not (well_formed_range right)
          || (not (str_eq left.timeline_id right.timeline_id)
              || not (left.sample_rate == right.sample_rate)))
    then none
    else some (
        ltb left.begin left.end
        && (ltb right.begin right.end && (ltb left.begin right.end && ltb right.begin left.end)))

unfoldable pub well_formed_cause : String → Cause → Bool
unfolding of_run
well_formed_cause run (fact id) = of_run run id
well_formed_cause run (preexisting_context context_id) = identifier context_id

unfoldable pub well_formed_occurrence : Occurrence → Bool
well_formed_occurrence o =
    valid_id o.id
    && (valid_text o.track_id
        && (valid_text o.assignment_id
            && (valid_position o.position
                && (valid_range o.loop_region
                    && (valid_gain o.gain
                        && (consistent_availability o.muted
                            && (valid_text o.final_reason
                                && (leb (length o.start_causes) max_fact_causes
                                    && all (well_formed_cause o.id.run_id) o.start_causes))))))))

-- `operator==` of two identities.
unfoldable pub same_id : OccurrenceId → OccurrenceId → Bool
same_id a b = str_eq a.run_id b.run_id && (a.sequence == b.sequence)

-- The checks of one participant alone.
unfoldable pub fits : String → SampleFrameRange → MixParticipant → Bool
fits run range p =
    valid_id p.occurrence_id
    && (str_eq p.occurrence_id.run_id run
        && (well_formed_range p.mix_range
            && (not (p.mix_range.begin == p.mix_range.end)
                && (str_eq p.mix_range.timeline_id range.timeline_id
                    && ((p.mix_range.sample_rate == range.sample_rate)
                        && (leb range.begin p.mix_range.begin
                            && (leb p.mix_range.end range.end
                                && (valid_position p.position_begin
                                    && (valid_position p.position_end
                                        && (valid_gain p.gain_begin
                                            && (valid_gain p.gain_end
                                                && consistent_availability p.muted)))))))))))

-- The inner loop: an earlier participant has the identity.
pub repeats : OccurrenceId → List MixParticipant → Bool
repeats id [] = false
repeats id (p ∷ earlier) = same_id p.occurrence_id id || repeats id earlier

-- The outer loop; the participants before the one at hand are given, the last of them first.
pub participants_fit : String → SampleFrameRange → List MixParticipant → List MixParticipant → Bool
participants_fit run range earlier [] = true
participants_fit run range earlier (p ∷ later) =
    let rest = participants_fit run range (p ∷ earlier) later in
    fits run range p && (not (repeats p.occurrence_id earlier) && rest)

pub well_formed_span : MixSpan → Bool
well_formed_span span =
    identifier span.run_id
    && (identifier span.span_id
        && (well_formed_range span.mix_range
            && (not (span.mix_range.begin == span.mix_range.end)
                && (valid_range span.output_range
                    && (leb (length span.participants) max_mix_participants
                        && (leb (length span.facts) max_fact_causes
                            && (participants_fit span.run_id span.mix_range [] span.participants
                                && all (of_run span.run_id) span.facts)))))))
