-- ===== src/AudioQa/Threshold.antt =====
-- tools/audio_qa/checkpoint_threshold.h and checkpoint_threshold.cpp: when received evidence is due
-- to be published as a checkpoint. Of a stored checkpoint only the sequence number is read.
pub mod Waiting
pub mod Due
mod Examples
use ayther_runtime.Prelude.{
  ℕ, Bool, true, false, not, ◌&&◌, ◌||◌, Option, some, List, [], ◌∷◌, ltb, leb, ◌==◌, if◌then◌else◌,
  is_some, value_or,
}
use ayther_runtime.Prelude.Word.{sub_u64}

abbrev pub checkpoint_interval_ms : ℕ
checkpoint_interval_ms = 1000

abbrev pub checkpoint_pending_byte_limit : ℕ
checkpoint_pending_byte_limit = 1048576

pub data CheckpointPublicationAction : Type 0 where
  none publish saturated : CheckpointPublicationAction

pub record CheckpointPublicationRequest : Type 0 where
  pub action : CheckpointPublicationAction
  pub publication_bytes : ℕ
  pub pending_bytes : ℕ
  pub time_threshold : Bool
  pub byte_threshold : Bool

pub record CheckpointThreshold : Type 0 where
  pub received_bytes : ℕ
  pub durable_bytes : ℕ
  pub last_checkpoint_sequence : ℕ
  pub last_observed_at_ms : ℕ
  pub pending_since_ms : Option ℕ
  pub publication_bytes : Option ℕ
  pub post_request_pending_since_ms : Option ℕ

pub new : ℕ → CheckpointThreshold
new started_at_ms = record {
  received_bytes = 0;
  durable_bytes = 0;
  last_checkpoint_sequence = 0;
  last_observed_at_ms = started_at_ms;
  pending_since_ms = Option.none;
  publication_bytes = Option.none;
  post_request_pending_since_ms = Option.none;
}

-- Whether the interval since a time, where there is one, has passed.
abbrev pub interval_reached : ℕ → Option ℕ → Bool
interval_reached now Option.none = false
interval_reached now (some since) = leb since now && leb checkpoint_interval_ms (sub_u64 now since)

-- `received <= *publication && total > *publication`, where there is a publication.
abbrev pub passes : Option ℕ → ℕ → ℕ → Bool
passes Option.none received total = false
passes (some publication) received total = leb received publication && ltb publication total

pub record_received : CheckpointThreshold → ℕ → ℕ → CheckpointThreshold × Bool
record_received t total now =
    let pending = if t.received_bytes == t.durable_bytes then some now else t.pending_since_ms in
    let post =
      if passes t.publication_bytes t.received_bytes total
        && not (is_some t.post_request_pending_since_ms)
      then some now
      else t.post_request_pending_since_ms in
    if ltb total t.received_bytes || ltb now t.last_observed_at_ms
    then (t, false)
    else if ltb t.received_bytes total
    then (
      record t {
        received_bytes = total;
        last_observed_at_ms = now;
        pending_since_ms = pending;
        post_request_pending_since_ms = post;
      },
      true,
    )
    else (record t { last_observed_at_ms = now }, true)

abbrev pub request :
    CheckpointPublicationAction → ℕ → ℕ → Bool → Bool → CheckpointPublicationRequest
request action publication pending time bytes = record {
  action = action;
  publication_bytes = publication;
  pending_bytes = pending;
  time_threshold = time;
  byte_threshold = bytes;
}

-- With a publication under way, or with none.
pub request_at :
    CheckpointThreshold → Option ℕ → ℕ → CheckpointThreshold × CheckpointPublicationRequest
request_at t (some publication) now =
    let waiting = sub_u64 t.received_bytes publication in
    let time = interval_reached now t.post_request_pending_since_ms in
    let bytes = leb checkpoint_pending_byte_limit waiting in
    (
      t,
      request (if time || bytes then saturated else CheckpointPublicationAction.none) publication
          waiting time bytes,
    )
request_at t Option.none now =
    let pending = sub_u64 t.received_bytes t.durable_bytes in
    let time = interval_reached now t.pending_since_ms in
    let bytes = leb checkpoint_pending_byte_limit pending in
    if (pending == 0) || not (is_some t.pending_since_ms)
    then (t, request CheckpointPublicationAction.none 0 0 false false)
    else if not time && not bytes
    then (t, request CheckpointPublicationAction.none 0 pending false false)
    else (
      record t {
        publication_bytes = some t.received_bytes;
        post_request_pending_since_ms = Option.none;
      },
      request publish t.received_bytes pending time bytes,
    )

pub request_publication :
    CheckpointThreshold → ℕ → CheckpointThreshold × CheckpointPublicationRequest
unfolding request_at
request_publication t now =
    if ltb now t.last_observed_at_ms
    then (t, request CheckpointPublicationAction.none 0 0 false false)
    else request_at (record t { last_observed_at_ms = now }) t.publication_bytes now

pub confirm_publication : CheckpointThreshold → ℕ → ℕ → CheckpointThreshold × Bool
confirm_publication t sequence now =
    let durable = value_or t.publication_bytes 0 in
    if not (is_some t.publication_bytes)
      || (ltb now t.last_observed_at_ms || leb sequence t.last_checkpoint_sequence)
    then (t, false)
    else (
      record {
        received_bytes = t.received_bytes;
        durable_bytes = durable;
        last_checkpoint_sequence = sequence;
        last_observed_at_ms = now;
        pending_since_ms =
            if t.received_bytes == durable
            then Option.none
            else some (value_or t.post_request_pending_since_ms now);
        publication_bytes = Option.none;
        post_request_pending_since_ms = Option.none;
      },
      true,
    )

pub data Call : Type 0 where
  receives confirms : ℕ → ℕ → Call
  requests : ℕ → Call

pub step : CheckpointThreshold → Call → CheckpointThreshold
unfolding record_received request_publication request_at confirm_publication
step t (receives total now) = (record_received t total now).0
step t (requests now) = (request_publication t now).0
step t (confirms sequence now) = (confirm_publication t sequence now).0

pub run : CheckpointThreshold → List Call → CheckpointThreshold
run t [] = t
run t (c ∷ cs) = run (step t c) cs
