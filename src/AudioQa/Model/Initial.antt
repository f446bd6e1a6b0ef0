-- ===== src/AudioQa/Model/Initial.antt =====
-- tools/audio_qa/initial_state.h and initial_state.cpp: the state that a replay starts from, and when
-- it is described well enough to start.
pub mod Complete
pub mod Sample
use Prim.Native.String.{String, len}
use text.Mathlib.Text.{◌==◌ as str_eq}
use ayther_runtime.Prelude.{
  ℕ, ◌*◌, ◌/◌, Bool, true, false, not, ◌&&◌, ◌||◌, Option, none, some, List, [], ◌∷◌, length, ltb,
  leb, ◌==◌, is_some, value_or,
}
use ayther_runtime.Prelude.Word.{sub_u64}
use ayther_runtime.AudioQa.Model.{
  Field, FactId, ContentIdentity, ContractVersion, is_hd_state_schema_version, identifier,
  consistent_availability, unless_absent, all, of_run, max_identity_bytes, max_initial_state_bytes,
  max_initial_windows, max_initial_requests, max_initial_audio_queues, max_mix_participants,
}
use ayther_runtime.AudioQa.Model.Mix.{
  Occurrence, SampleFrameRange, well_formed_range, well_formed_occurrence,
}
use ayther_runtime.AudioQa.Model.Chunk.{AudioFormat, expected_payload_bytes}

pub record StateImage : Type 0 where
  pub image_id : String
  pub version : ContractVersion
  pub content : ContentIdentity

pub record InitialCollection (T : Type 0) : Type 0 where
  pub entries : Field (List T)
  pub observed_by : Field FactId

pub record DetectorInitial : Type 0 where
  pub reset_verified : Bool
  pub active_events : ℕ
  pub pending_inputs : ℕ
  pub continuation_state : Field StateImage

pub record InitialWindow : Type 0 where
  pub key : ℕ
  pub start_frame : ℕ
  pub end_frame : ℕ
  pub cut_frame : ℕ
  pub channel_mask : ℕ
  pub looping : Bool

pub record InitialRequest : Type 0 where
  pub request_id : String
  pub business_key : ℕ
  pub track_id : String
  pub scheduled_frame : Field ℕ

pub record PendingAudio : Type 0 where
  pub queue_id : String
  pub format : AudioFormat
  pub range : SampleFrameRange
  pub pcm_content : ContentIdentity
  pub continuation_state : Field StateImage

pub data HdInitialization : Type 0 where
  unknown fresh restored : HdInitialization

pub data RestoreResult : Type 0 where
  not_attempted succeeded failed : RestoreResult

pub record InitialState : Type 0 where
  pub run_id : String
  pub game_state_id : String
  pub game_restore_result : RestoreResult
  pub hd_version : ContractVersion
  pub supplied_hd_version : Field ContractVersion
  pub hd_initialization : HdInitialization
  pub hd_restore_result : RestoreResult
  pub initialization_reason : String
  pub engine_state_image : Field StateImage
  pub detector : Field DetectorInitial
  pub detector_observed_by : Field FactId
  pub windows : InitialCollection InitialWindow
  pub voices : InitialCollection Occurrence
  pub requests : InitialCollection InitialRequest
  pub pending_audio : InitialCollection PendingAudio

pub valid_image : Field StateImage → Bool
valid_image image =
    consistent_availability image
    && unless_absent image.value
        (λ i. identifier i.image_id && leb i.content.byte_size max_initial_state_bytes)

pub proof : Field FactId → String → Bool
proof field run = consistent_availability field && unless_absent field.value (of_run run)

pub valid_collection : {T : Type 0} → InitialCollection T → String → ℕ → Bool
valid_collection c run limit =
    consistent_availability c.entries
    && (proof c.observed_by run && unless_absent c.entries.value (λ es. leb (length es) limit))

pub described : {T : Type 0} → InitialCollection T → Bool
described c = is_some c.entries.value && is_some c.observed_by.value

abbrev pub version_and_size : StateImage → Bool
version_and_size i = is_hd_state_schema_version i.version && ltb 0 i.content.byte_size

pub versioned : Field StateImage → Bool
versioned image = is_some image.value && unless_absent image.value version_and_size

pub window_fits : InitialWindow → Bool
window_fits w = leb w.start_frame w.end_frame

pub voice_fits : String → Occurrence → Bool
voice_fits run voice = well_formed_occurrence voice && str_eq voice.id.run_id run

pub request_fits : InitialRequest → Bool
request_fits r =
    identifier r.request_id && (identifier r.track_id && consistent_availability r.scheduled_frame)

-- The checks that take the size of one sample frame.
pub size_fits : PendingAudio → Option ℕ → Bool
size_fits p none = false
size_fits p (some frame_bytes) =
    let frames = sub_u64 p.range.end p.range.begin in
    leb frames (max_initial_state_bytes / frame_bytes)
    && (p.pcm_content.byte_size == frames * frame_bytes)

pub pending_fits : PendingAudio → Bool
pending_fits p =
    identifier p.queue_id
    && (well_formed_range p.range
        && ((p.range.sample_rate == p.format.sample_rate)
            && (leb p.pcm_content.byte_size max_initial_state_bytes
                && (is_some (expected_payload_bytes p.format 0)
                    && (valid_image p.continuation_state
                        && size_fits p (expected_payload_bytes p.format 1))))))

-- The value of an optional list of entries, or no entry.
abbrev pub entries_of : {T : Type 0} → InitialCollection T → List T
entries_of c = value_or c.entries.value []

-- The checks of `well_formed` before its loops; an enumeration is always one of its values.
pub fields_fit : InitialState → Bool
fields_fit s =
    identifier s.run_id
    && (identifier s.game_state_id
        && (leb (len s.initialization_reason) max_identity_bytes
            && (consistent_availability s.supplied_hd_version
                && (valid_image s.engine_state_image
                    && (consistent_availability s.detector
                        && (proof s.detector_observed_by s.run_id
                            && (valid_collection s.windows s.run_id max_initial_windows
                                && (valid_collection s.voices s.run_id max_mix_participants
                                    && (valid_collection s.requests s.run_id max_initial_requests
                                        && valid_collection s.pending_audio s.run_id
                                            max_initial_audio_queues)))))))))

pub well_formed : InitialState → Bool
well_formed s =
    fields_fit s
    && (unless_absent s.detector.value (λ d. valid_image d.continuation_state)
        && (all window_fits (entries_of s.windows)
            && (all (voice_fits s.run_id) (entries_of s.voices)
                && (all request_fits (entries_of s.requests)
                    && all pending_fits (entries_of s.pending_audio)))))

abbrev pub is_empty : {T : Type 0} → InitialCollection T → Bool
is_empty c = length (entries_of c) == 0

abbrev pub is_succeeded : RestoreResult → Bool
is_succeeded succeeded = true
is_succeeded r = false

pub fresh_description : InitialState → DetectorInitial → Bool
fresh_description s detector =
    not (len s.initialization_reason == 0)
    && (detector.reset_verified
        && ((detector.active_events == 0)
            && ((detector.pending_inputs == 0)
                && (is_empty s.windows
                    && (is_empty s.voices
                        && (is_empty s.requests
                            && (is_empty s.pending_audio
                                && not (is_succeeded s.hd_restore_result))))))))

pub voice_described : Occurrence → Bool
voice_described v =
    is_some v.position.value
    && (is_some v.track_id.value && (is_some v.gain.value && is_some v.muted.value))

pub restored_description : InitialState → DetectorInitial → Bool
restored_description s detector =
    is_succeeded s.hd_restore_result
    && (versioned s.engine_state_image
        && (versioned detector.continuation_state
            && (all voice_described (entries_of s.voices)
                && all (λ p. versioned p.continuation_state) (entries_of s.pending_audio))))

-- The tests on the initialization, of a state that has a detector.
pub initialization_complete : HdInitialization → InitialState → Option DetectorInitial → Bool
initialization_complete i s none = false
initialization_complete fresh s (some detector) = fresh_description s detector
initialization_complete restored s (some detector) = restored_description s detector
initialization_complete unknown s (some detector) = false

pub has_complete_hd_description : InitialState → Bool
has_complete_hd_description s =
    well_formed s
    && (is_hd_state_schema_version s.hd_version
        && (is_some s.detector.value
            && (is_some s.detector_observed_by.value
                && (described s.windows
                    && (described s.voices
                        && (described s.requests
                            && (described s.pending_audio
                                && initialization_complete s.hd_initialization s
                                    s.detector.value)))))))
