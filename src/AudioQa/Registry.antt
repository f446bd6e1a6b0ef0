-- ===== src/AudioQa/Registry.antt =====
-- tools/audio_qa/session_occupancy.h and session_occupancy.cpp, and request_registry.h and
-- request_registry.cpp: the one run of a session, and the requests that were accepted.
pub mod Occupation
pub mod Requests
mod Examples
use Prim.Native.String.{String, len}
use text.Mathlib.Text.{◌==◌ as str_eq}
use ayther_runtime.Prelude.{
  ℕ, Bool, true, false, not, ◌&&◌, ◌||◌, Option, none, some, List, [], ◌∷◌, ◌++◌, length, leb, ◌==◌,
  if◌then◌else◌,
}
use ayther_runtime.AudioQa.Lifecycle.{Phase, closed, Run}

pub data Admission : Type 0 where
  pending accepted rejected : Admission

pub record Request : Type 0 where
  pub request_id : String
  pub session_id : String
  pub conditions_id : String
  pub take_ids : List String
  pub admission : Admission
  pub language : Option String
  pub material_kind : Option String

pub data SessionAdmissionDecision : Type 0 where
  accepted busy invalid_request : SessionAdmissionDecision

pub record SessionAdmissionResult : Type 0 where
  pub decision : SessionAdmissionDecision
  pub run_id : String
  pub active_request_id : String
  pub active_run_id : String

pub record SessionOccupancy : Type 0 where
  pub request_id : String
  pub run_id : String

abbrev pub vacant : SessionOccupancy
vacant = record { request_id = ""; run_id = "" }

abbrev pub is_empty : String → Bool
is_empty s = len s == 0

abbrev pub is_closed : Phase → Bool
is_closed closed = true
is_closed p = false

pub occupied : SessionOccupancy → Bool
occupied s = not (is_empty s.run_id)

abbrev pub admission : SessionAdmissionDecision → String → SessionOccupancy → SessionAdmissionResult
admission decision run_id s = record {
  decision = decision;
  run_id = run_id;
  active_request_id = s.request_id;
  active_run_id = s.run_id;
}

pub admit : SessionOccupancy → Request → String → SessionOccupancy × SessionAdmissionResult
unfolding occupied
admit s request run_id =
    let taken : SessionOccupancy = record { request_id = request.request_id; run_id = run_id } in
    if is_empty request.request_id || is_empty run_id
    then (s, admission invalid_request "" s)
    else if occupied s
    then (s, admission busy "" s)
    else (taken, admission SessionAdmissionDecision.accepted run_id taken)

pub observe : SessionOccupancy → Run → SessionOccupancy × Bool
unfolding occupied
observe s run =
    if not (occupied s)
      || (not (str_eq run.request_id s.request_id) || not (str_eq run.run_id s.run_id))
    then (s, false)
    else if is_closed run.phase && run.cessation_confirmed
    then (vacant, true)
    else (s, true)

abbrev pub max_registered_requests : ℕ
max_registered_requests = 1024

pub data RequestRegistrationDecision : Type 0 where
  accepted known identity_conflict invalid capacity_exceeded : RequestRegistrationDecision

-- The run of a result is a default-constructed one, that is none, where nothing is registered.
pub record RequestRegistrationResult : Type 0 where
  pub decision : RequestRegistrationDecision
  pub run : Option Run

pub record Entry : Type 0 where
  pub request : Request
  pub run : Run

abbrev pub same_texts : List String → List String → Bool
same_texts [] [] = true
same_texts [] (y ∷ ys) = false
same_texts (x ∷ xs) [] = false
same_texts (x ∷ xs) (y ∷ ys) = str_eq x y && same_texts xs ys

abbrev pub same_optional : Option String → Option String → Bool
same_optional none none = true
same_optional none (some y) = false
same_optional (some x) none = false
same_optional (some x) (some y) = str_eq x y

pub same_content : Request → Request → Bool
same_content left right =
    str_eq left.request_id right.request_id
    && (str_eq left.session_id right.session_id
        && (str_eq left.conditions_id right.conditions_id
            && (same_texts left.take_ids right.take_ids
                && same_optional left.material_kind right.material_kind)))

pub valid : Request → Run → Bool
valid request run =
    not (is_empty request.request_id)
    && (not (is_empty request.session_id)
        && (not (is_empty request.conditions_id)
            && (not (length request.take_ids == 0)
                && (not (is_empty run.run_id)
                    && (str_eq run.request_id request.request_id && not (is_empty run.take_id))))))

-- The search of `register_request`.
pub find : List Entry → String → Option Entry
find [] id = none
find (e ∷ es) id = let rest = find es id in if str_eq e.request.request_id id then some e else rest

abbrev pub registration : RequestRegistrationDecision → Option Run → RequestRegistrationResult
registration decision run = record { decision = decision; run = run }

-- What follows the search.
pub register_found :
    List Entry → Request → Run → Option Entry → List Entry × RequestRegistrationResult
register_found entries request run (some e) =
    if not (same_content e.request request)
    then (entries, registration identity_conflict (some e.run))
    else (entries, registration known (some e.run))
register_found entries request run none =
    let entry : Entry = record {
      request = record request { admission = Admission.accepted };
      run = run;
    } in
    if leb max_registered_requests (length entries)
    then (entries, registration capacity_exceeded none)
    else (entries ++ (entry ∷ []), registration RequestRegistrationDecision.accepted (some run))

pub register_request : List Entry → Request → Run → List Entry × RequestRegistrationResult
unfolding register_found
register_request entries request run =
    if not (valid request run)
    then (entries, registration invalid none)
    else register_found entries request run (find entries request.request_id)

abbrev pub is_run : Run → Entry → Bool
is_run run e = str_eq e.run.run_id run.run_id && str_eq e.request.request_id run.request_id

pub update_run : List Entry → Run → List Entry × Bool
update_run [] run = ([], false)
update_run (e ∷ es) run =
    let rest = update_run es run in
    if is_run run e then (record e { run = run } ∷ es, true) else (e ∷ rest.0, rest.1)
