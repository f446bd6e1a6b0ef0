-- ===== src/AudioQa/Registry/Examples.antt =====
-- A session with a run, and two registrations of one request
-- (tools/audio_qa/session_occupancy.cpp and request_registry.cpp).
use ayther_runtime.Prelude.{◌≤◌, ◌≡◌, refl, true, false, none, List, [], ◌∷◌, length}
use ayther_runtime.AudioQa.CancellationWindow.{EvidenceResult}
use ayther_runtime.AudioQa.Lifecycle.{closed, natural_end, unknown, Run}
use ayther_runtime.AudioQa.Registry.{Request, Admission, SessionOccupancy, occupied}
use ayther_runtime.AudioQa.Registry.Occupation
use ayther_runtime.AudioQa.Registry.Occupation.{
  Event, admits, observes, EndsNot, occupied_until_ceased,
}
use ayther_runtime.AudioQa.Registry.Requests
use ayther_runtime.AudioQa.Registry.Requests.{
  Call, registers, updates, ids, Distinct, registered_once,
}

abbrev request : Request
request = record {
  request_id = "request-1";
  session_id = "session-1";
  conditions_id = "conditions-1";
  take_ids = "take-1" ∷ [];
  admission = Admission.pending;
  language = none;
  material_kind = none;
}

-- Closed, but the end of its process is not confirmed.
abbrev unconfirmed : Run
unconfirmed = record {
  run_id = "run-1";
  request_id = "request-1";
  take_id = "take-1";
  phase = closed;
  playback_result = natural_end;
  evidence_result = EvidenceResult.complete;
  equivalence_result = unknown;
  last_executed_frame = none;
  last_durable_sample = none;
  cessation_confirmed = false;
}

abbrev taken : SessionOccupancy
taken = record { request_id = "request-1"; run_id = "run-1" }

abbrev events : List Event
events = observes unconfirmed ∷ admits request "run-2" ∷ []

taken-occupied : occupied taken ≡ true
unfolding occupied
taken-occupied = refl

occupied_until_ceased_example : Occupation.run taken events ≡ taken
occupied_until_ceased_example = occupied_until_ceased taken events taken-occupied (refl, (tt, tt))

abbrev calls : List Call
calls = registers request unconfirmed ∷ registers request unconfirmed ∷ updates unconfirmed ∷ []

registered_once_example :
    Distinct (ids (Requests.run [] calls)) × (length (Requests.run [] calls) ≤ 1024)
registered_once_example = registered_once calls
