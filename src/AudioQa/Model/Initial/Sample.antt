-- ===== src/AudioQa/Model/Initial/Sample.antt =====
-- A complete description of a fresh start (the data of tools/audio_qa/initial_state.h).
use ayther_runtime.Prelude.{◌≡◌, refl, true, none, some, []}
use ayther_runtime.AudioQa.Model.{
  Field, known, not_applicable, FactId, ContractVersion, consistent_availability, identifier, all,
  of_run,
}
use ayther_runtime.AudioQa.Model.Initial.{
  InitialState, InitialCollection, DetectorInitial, fresh, succeeded, not_attempted, valid_image,
  proof, valid_collection, described, fields_fit, well_formed, fresh_description,
  initialization_complete, has_complete_hd_description,
}

abbrev pub given : {T : Type 0} → T → Field T
given t = record { availability = known; value = some t; reason_code = "" }

abbrev pub missing : {T : Type 0} → Field T
missing = record { availability = not_applicable; value = none; reason_code = "no_state" }

abbrev first_fact : FactId
first_fact = record { run_id = "run-1"; producer_id = "engine"; producer_sequence = 1 }

abbrev nothing : {T : Type 0} → InitialCollection T
nothing = record { entries = given []; observed_by = given first_fact }

abbrev version_1 : ContractVersion
version_1 = record { major = 1; minor = 0 }

abbrev idle : DetectorInitial
idle = record {
  reset_verified = true;
  active_events = 0;
  pending_inputs = 0;
  continuation_state = missing;
}

abbrev pub fresh_state : InitialState
fresh_state = record {
  run_id = "run-1";
  game_state_id = "state-1";
  game_restore_result = succeeded;
  hd_version = version_1;
  supplied_hd_version = missing;
  hd_initialization = fresh;
  hd_restore_result = not_attempted;
  initialization_reason = "no stored state";
  engine_state_image = missing;
  detector = given idle;
  detector_observed_by = given first_fact;
  windows = nothing;
  voices = nothing;
  requests = nothing;
  pending_audio = nothing;
}

pub fresh_state_complete : has_complete_hd_description fresh_state ≡ true
unfolding has_complete_hd_description initialization_complete fresh_description well_formed
    fields_fit described valid_collection proof valid_image all of_run identifier
    consistent_availability
fresh_state_complete = refl
