-- ===== src/AudioQa/Model.antt =====
-- tools/audio_qa/model_limits.h, fact_model.h, reference_model.h and contract_version.h: the fields,
-- identities and versions that the records of the audio checks share.
pub mod Mix
pub mod Chunk
pub mod Initial
pub mod Reference
use Prim.Native.String.{String, len}
use text.Mathlib.Text.{◌==◌ as str_eq}
use ayther_runtime.Prelude.{
  ℕ, ◌*◌, Bool, true, false, not, ◌&&◌, Option, none, some, List, [], ◌∷◌, ltb, leb, ◌==◌, is_some,
  if◌then◌else◌,
}

abbrev pub max_identity_bytes : ℕ
max_identity_bytes = 256

abbrev pub max_fact_causes : ℕ
max_fact_causes = 256

abbrev pub max_mix_participants : ℕ
max_mix_participants = 256

abbrev pub max_audio_payload_bytes : ℕ
max_audio_payload_bytes = 256 * 1024

abbrev pub max_audio_discontinuities : ℕ
max_audio_discontinuities = 256

abbrev pub max_initial_state_bytes : ℕ
max_initial_state_bytes = 64 * 1024 * 1024

abbrev pub max_initial_windows : ℕ
max_initial_windows = 4096

abbrev pub max_initial_requests : ℕ
max_initial_requests = 4096

abbrev pub max_initial_audio_queues : ℕ
max_initial_audio_queues = 256

-- `identifier`, which each of the files that use it repeats.
unfoldable pub identifier : String → Bool
identifier value = not (len value == 0) && leb (len value) max_identity_bytes

pub data Availability : Type 0 where
  known not_applicable unknown : Availability

pub record Field {ℓ} (T : Type ℓ) : Type ℓ where
  pub availability : Availability
  pub value : Option T
  pub reason_code : String

module _ {ℓ} {T : Type ℓ} where
  -- The switch of `consistent_availability`.
  abbrev pub matches : Availability → Option T → Bool
  matches known value = is_some value
  matches not_applicable value = not (is_some value)
  matches unknown value = not (is_some value)

  unfoldable pub consistent_availability : Field T → Bool
  consistent_availability field =
      if ltb max_identity_bytes (len field.reason_code)
      then false
      else matches field.availability field.value

  -- A condition on the value of a field that has one: `!value || condition(*value)`.
  abbrev pub unless_absent : Option T → (T → Bool) → Bool
  unless_absent none test = true
  unless_absent (some t) test = test t

  -- A loop that returns false at the first entry that fails.
  unfoldable pub all : (T → Bool) → List T → Bool
  all test [] = true
  all test (t ∷ ts) = if test t then all test ts else false

pub record FactId : Type 0 where
  pub run_id : String
  pub producer_id : String
  pub producer_sequence : ℕ

pub data Cause : Type 0 where
  fact : FactId → Cause
  preexisting_context : String → Cause

-- The test that each loop over facts makes of one: it is of the run and has a producer and a number.
unfoldable pub of_run : String → FactId → Bool
of_run run id =
    str_eq id.run_id run && (identifier id.producer_id && not (id.producer_sequence == 0))

pub record ContentIdentity : Type 0 where
  pub sha256 : List ℕ
  pub byte_size : ℕ

pub record ContractVersion : Type 0 where
  pub major : ℕ
  pub minor : ℕ

-- Equality with `hd_state_schema_version`.
abbrev pub is_hd_state_schema_version : ContractVersion → Bool
is_hd_state_schema_version v = (v.major == 1) && (v.minor == 0)
