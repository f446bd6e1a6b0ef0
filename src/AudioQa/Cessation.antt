-- ===== src/AudioQa/Cessation.antt =====
-- tools/audio_qa/process_cessation.h and process_cessation.cpp: what is known of the end of the
-- process of a run. Of `Run` (model.h) the identities and the cessation are fields; the rest, which
-- this class only copies, is a parameter type.
pub mod States
use Prim.Native.String.{String}
use text.Mathlib.Text.{◌==◌ as str_eq}
use ayther_runtime.Prelude.{
  ℕ, Bool, true, false, not, ◌&&◌, ◌||◌, Option, none, some, List, [], ◌∷◌, if◌then◌else◌,
}
use ayther_runtime.Prelude.Int.{ℤ}

pub data ProcessCessationState : Type 0 where
  connected disconnected stop_requested unconfirmed confirmed : ProcessCessationState

-- `Run`; `Detail` holds its phase, results and last frame and sample.
pub record Run (Detail : Type 0) : Type 0 where
  pub run_id : String
  pub request_id : String
  pub take_id : String
  pub detail : Detail
  pub cessation_confirmed : Bool

-- `ProcessCessation`, whose only member is its `ProcessCessationStatus`.
pub record Status (Detail : Type 0) : Type 0 where
  pub state : ProcessCessationState
  pub last_known_run : Run Detail
  pub exit_code : Option ℤ

abbrev pub is_connected : ProcessCessationState → Bool
is_connected connected = true
is_connected s = false

abbrev pub is_disconnected : ProcessCessationState → Bool
is_disconnected disconnected = true
is_disconnected s = false

abbrev pub is_stop_requested : ProcessCessationState → Bool
is_stop_requested stop_requested = true
is_stop_requested s = false

abbrev pub is_confirmed : ProcessCessationState → Bool
is_confirmed confirmed = true
is_confirmed s = false

module _ {Detail : Type 0} where
  pub new : Run Detail → Status Detail
  new run = record { state = connected; last_known_run = run; exit_code = none }

  pub observe_run : Status Detail → Run Detail → Status Detail × Bool
  observe_run s run =
      let last = s.last_known_run in
      if not (is_connected s.state)
        || (not (str_eq run.run_id last.run_id)
            || (not (str_eq run.request_id last.request_id)
                || not (str_eq run.take_id last.take_id)))
      then (s, false)
      else (record s { last_known_run = run }, true)

  pub observe_disconnect : Status Detail → Status Detail × Bool
  observe_disconnect s =
      if not (is_connected s.state) then (s, false) else (record s { state = disconnected }, true)

  pub request_stop : Status Detail → Status Detail × Bool
  request_stop s =
      if not (is_disconnected s.state)
      then (s, false)
      else (record s { state = stop_requested }, true)

  pub mark_unconfirmed : Status Detail → Status Detail × Bool
  mark_unconfirmed s =
      if not (is_stop_requested s.state)
      then (s, false)
      else (record s { state = unconfirmed }, true)

  pub confirm_exit : Status Detail → ℤ → Status Detail × Bool
  confirm_exit s code = if is_confirmed s.state then (s, false) else (
    record s {
      state = confirmed;
      exit_code = some code;
      last_known_run = record (s.last_known_run) { cessation_confirmed = true };
    },
    true,
  )

pub data Event (Detail : Type 0) : Type 0 where
  observes : Run Detail → Event Detail
  disconnects stops gives_up : Event Detail
  exits : ℤ → Event Detail

module _ {Detail : Type 0} where
  pub step : Status Detail → Event Detail → Status Detail
  unfolding observe_run observe_disconnect request_stop mark_unconfirmed confirm_exit
  step s (observes run) = (observe_run s run).0
  step s disconnects = (observe_disconnect s).0
  step s stops = (request_stop s).0
  step s gives_up = (mark_unconfirmed s).0
  step s (exits code) = (confirm_exit s code).0

  pub run_all : Status Detail → List (Event Detail) → Status Detail
  run_all s [] = s
  run_all s (e ∷ es) = run_all (step s e) es
