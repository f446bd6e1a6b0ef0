-- ===== src/AudioQa/Publication.antt =====
-- tools/audio_qa/initial_state_publication.h and initial_state_publication.cpp: the initial state of a
-- replay, given to its consumer before the first input. The consumer is a function that is there or
-- not.
pub mod Permission
mod Examples
use ayther_runtime.Prelude.{Bool, true, false, not, ◌||◌, Option, some, if◌then◌else◌}
use ayther_runtime.AudioQa.Model.Initial.{
  InitialState, well_formed, has_complete_hd_description, is_succeeded,
}
use ayther_runtime.AudioQa.Recording.Input
use ayther_runtime.AudioQa.Recording.Input.{RecordingFrameInput, RecordingInputSource}

pub data InitialStatePublicationStatus : Type 0 where
  pending acknowledged failed : InitialStatePublicationStatus

pub data InitialStatePublicationError : Type 0 where
  none invalid_state incomplete_state consumer_unavailable consumer_rejected :
      InitialStatePublicationError

pub record InitialStatePublication : Type 0 where
  pub state : InitialState
  pub status : InitialStatePublicationStatus
  pub error : InitialStatePublicationError

unfoldable pub new_publication : InitialState → InitialStatePublication
new_publication state = record {
  state = state;
  status = pending;
  error = InitialStatePublicationError.none;
}

abbrev refuse :
    InitialStatePublication → InitialStatePublicationError → InitialStatePublication × Bool
refuse p error = (record p { status = failed; error = error }, false)

-- What a pending publication does with its consumer, which is there or not and accepts the state or
-- not.
unfoldable pub publish_to :
    InitialStatePublication → Option (InitialState → Bool) → InitialStatePublication × Bool
publish_to p Option.none = refuse p consumer_unavailable
publish_to p (some consumer) =
    if not (consumer p.state)
    then refuse p consumer_rejected
    else (record p { status = acknowledged }, true)

unfoldable pub publish_pending :
    InitialStatePublication → Option (InitialState → Bool) → InitialStatePublication × Bool
publish_pending p consumer =
    if not (well_formed p.state)
    then refuse p invalid_state
    else if not (is_succeeded p.state.game_restore_result)
        || not (has_complete_hd_description p.state)
    then refuse p incomplete_state
    else publish_to p consumer

unfoldable pub publish_at :
    InitialStatePublicationStatus
    → InitialStatePublication
    → Option (InitialState → Bool)
    → InitialStatePublication × Bool
publish_at acknowledged p consumer = (p, true)
publish_at failed p consumer = (p, false)
publish_at pending p consumer = publish_pending p consumer

unfoldable pub publish :
    InitialStatePublication → Option (InitialState → Bool) → InitialStatePublication × Bool
publish p consumer = publish_at p.status p consumer

abbrev pub is_acknowledged : InitialStatePublicationStatus → Bool
is_acknowledged acknowledged = true
is_acknowledged s = false

unfoldable pub input_permitted : InitialStatePublication → Bool
input_permitted p = is_acknowledged p.status

unfoldable pub next_input :
    InitialStatePublication
    → RecordingInputSource
    → RecordingInputSource × Option RecordingFrameInput
next_input p inputs = if not (input_permitted p) then (inputs, Option.none) else Input.next inputs
