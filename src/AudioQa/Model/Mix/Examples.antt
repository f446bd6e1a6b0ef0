-- ===== src/AudioQa/Model/Mix/Examples.antt =====
-- Two ranges that overlap, and a span of two participants (tools/audio_qa/mix_model.cpp).
use ayther_runtime.Prelude.{ℕ, ◌≡◌, refl, true, none, [], ◌∷◌, All}
use ayther_runtime.AudioQa.Model.{Field, not_applicable, identifier, consistent_availability, all}
use ayther_runtime.AudioQa.Model.Mix.{
  SampleFrameRange, MixParticipant, MixSpan, present, valid_id, well_formed_range, valid_position,
  valid_range, valid_gain, same_id, fits, repeats, participants_fit, well_formed_span,
}
use ayther_runtime.AudioQa.Model.Mix.Spans.{SoundsWithin, AllDiffer, span_participants}

abbrev range : ℕ → ℕ → SampleFrameRange
range begin end = record { timeline_id = "mix"; sample_rate = 44100; begin = begin; end = end }

abbrev missing : {T : Type 0} → Field T
missing = record { availability = not_applicable; value = none; reason_code = "" }

abbrev participant : ℕ → MixParticipant
participant sequence = record {
  occurrence_id = record { run_id = "run-1"; sequence = sequence };
  mix_range = range 2 8;
  position_begin = missing;
  position_end = missing;
  gain_begin = missing;
  gain_end = missing;
  muted = missing;
}

abbrev span : MixSpan
span = record {
  run_id = "run-1";
  span_id = "span-1";
  mix_range = range 0 10;
  output_range = missing;
  original_audio = present;
  participants = participant 1 ∷ participant 2 ∷ [];
  facts = [];
}

span_fits : well_formed_span span ≡ true
unfolding well_formed_span participants_fit repeats fits same_id valid_gain valid_range
    valid_position well_formed_range valid_id consistent_availability identifier all
span_fits = refl

span_participants_example :
    All (SoundsWithin span.run_id span.mix_range) span.participants × AllDiffer span.participants
span_participants_example = span_participants span span_fits
