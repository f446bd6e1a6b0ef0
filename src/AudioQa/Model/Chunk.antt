-- ===== src/AudioQa/Model/Chunk.antt =====
-- tools/audio_qa/audio_chunk.h and audio_chunk.cpp: formats of sound and the chunks of it.
pub mod Bound
mod Examples
use Prim.Native.String.{String}
use text.Mathlib.Text.{◌==◌ as str_eq}
use ayther_runtime.Prelude.{
  ℕ, ◌-◌, ◌*◌, ◌/◌, Bool, true, false, not, ◌&&◌, ◌||◌, Option, none, some, List, [], ◌∷◌, length,
  ltb, leb, ◌==◌, if◌then◌else◌, is_some,
}
use ayther_runtime.Prelude.Word.{sub_u64}
use ayther_runtime.AudioQa.Model.{
  Field, FactId, identifier, consistent_availability, unless_absent, all, of_run, max_fact_causes,
  max_audio_payload_bytes, max_audio_discontinuities,
}
use ayther_runtime.AudioQa.Model.Mix.{SampleFrameRange, well_formed_range, valid_range}

pub data PcmFormat : Type 0 where
  s16le s24le s32le f32le : PcmFormat

pub record AudioFormat : Type 0 where
  pub pcm : PcmFormat
  pub sample_rate : ℕ
  pub channels : ℕ

pub data Durability : Type 0 where
  pending confirmed : Durability

pub data DiscontinuityKind : Type 0 where
  inserted_silence discarded_audio : DiscontinuityKind

pub record AudioDiscontinuity : Type 0 where
  pub kind : DiscontinuityKind
  pub affected_range : SampleFrameRange
  pub output_range : Field SampleFrameRange
  pub cause_ids : List FactId

pub record AudioChunk : Type 0 where
  pub run_id : String
  pub capture_point : String
  pub producer_sequence : ℕ
  pub format : AudioFormat
  pub range : SampleFrameRange
  pub bytes : List ℕ
  pub sha256 : Field (List ℕ)
  pub durability : Durability
  pub checkpoint_id : Field String
  pub cause_ids : List FactId
  pub discontinuities : List AudioDiscontinuity
  pub segment : ℕ

abbrev pub width : PcmFormat → ℕ
width s16le = 2
width s24le = 3
width s32le = 4
width f32le = 4

abbrev pub frame_bytes_of : AudioFormat → ℕ
frame_bytes_of format = width format.pcm * format.channels

unfoldable pub expected_payload_bytes : AudioFormat → ℕ → Option ℕ
expected_payload_bytes format sample_frames =
    if (format.sample_rate == 0)
      || (ltb 192000 format.sample_rate || ((format.channels == 0) || ltb 8 format.channels))
    then none
    else if ltb (max_audio_payload_bytes / frame_bytes_of format) sample_frames
    then none
    else some (sample_frames * frame_bytes_of format)

abbrev pub is_confirmed : Durability → Bool
is_confirmed confirmed = true
is_confirmed pending = false

-- Equality of an optional number with a number.
abbrev pub has_value : Option ℕ → ℕ → Bool
has_value none n = false
has_value (some m) n = m == n

pub same_fact : FactId → FactId → Bool
same_fact a b =
    str_eq a.run_id b.run_id
    && (str_eq a.producer_id b.producer_id && (a.producer_sequence == b.producer_sequence))

pub repeats : FactId → List FactId → Bool
repeats id [] = false
repeats id (e ∷ earlier) = same_fact e id || repeats id earlier

-- The loop over the causes; those before the one at hand are given, the last of them first.
pub causes_fit : String → List FactId → List FactId → Bool
causes_fit run earlier [] = true
causes_fit run earlier (c ∷ later) =
    let rest = causes_fit run (c ∷ earlier) later in
    of_run run c && (not (repeats c earlier) && rest)

pub gap_fits : String → AudioDiscontinuity → Bool
gap_fits run gap =
    well_formed_range gap.affected_range
    && (valid_range gap.output_range
        && (leb (length gap.cause_ids) max_fact_causes && all (of_run run) gap.cause_ids))

pub well_formed : AudioChunk → Bool
well_formed c =
    let expected = expected_payload_bytes c.format (sub_u64 c.range.end c.range.begin) in
    identifier c.run_id
    && (identifier c.capture_point
        && (not (c.producer_sequence == 0)
            && (well_formed_range c.range
                && ((c.range.sample_rate == c.format.sample_rate)
                    && (consistent_availability c.sha256
                        && (consistent_availability c.checkpoint_id
                            && (leb (length c.cause_ids) max_fact_causes
                                && (leb (length c.discontinuities) max_audio_discontinuities
                                    && (has_value expected (length c.bytes)
                                        && (unless_absent c.checkpoint_id.value identifier
                                            && ((not (is_confirmed c.durability)
                                                  || (is_some c.sha256.value
                                                      && is_some c.checkpoint_id.value))
                                                && (causes_fit c.run_id [] c.cause_ids
                                                    && all (gap_fits c.run_id)
                                                        c.discontinuities))))))))))))
