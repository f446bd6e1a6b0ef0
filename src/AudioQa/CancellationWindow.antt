-- ===== src/AudioQa/CancellationWindow.antt =====
-- tools/audio_qa/cancellation_window.h and cancellation_window.cpp: the two deadlines of a
-- cancellation. Times are 64-bit words in milliseconds.
pub mod Deadlines
mod Examples
use ayther_runtime.Prelude.{
  ℕ, Bool, true, false, not, ◌&&◌, ◌||◌, Option, none, some, List, [], ◌∷◌, ltb, leb, if◌then◌else◌,
  is_some, value_or,
}
use ayther_runtime.Prelude.Word.{sub_u64}

abbrev pub cancellation_response_deadline_ms : ℕ
cancellation_response_deadline_ms = 2000

abbrev pub cancellation_wait_deadline_ms : ℕ
cancellation_wait_deadline_ms = 5000

pub data CancellationTrigger : Type 0 where
  channel_lost no_progress controlled_interrupt : CancellationTrigger

pub data CancellationDeadlineReason : Type 0 where
  response_timeout wait_timeout : CancellationDeadlineReason

-- `EvidenceResult` of model.h.
pub data EvidenceResult : Type 0 where
  pending in_progress complete incomplete : EvidenceResult

pub record CancellationDeadlineDiagnostic : Type 0 where
  pub trigger : CancellationTrigger
  pub reason : CancellationDeadlineReason
  pub evidence_result : EvidenceResult
  pub cancellation_attempted : Bool
  pub request_delivered : Bool
  pub response_received : Bool
  pub cessation_confirmed : Bool
  pub detected_ms : ℕ
  pub requested_ms : ℕ
  pub elapsed_since_request_ms : ℕ

pub record CancellationWindow : Type 0 where
  pub trigger : CancellationTrigger
  pub detected_ms : ℕ
  pub requested_ms : Option ℕ
  pub response_ms : Option ℕ
  pub cessation_ms : Option ℕ
  pub request_delivered : Bool

pub new : CancellationTrigger → ℕ → CancellationWindow
new trigger detected_ms = record {
  trigger = trigger;
  detected_ms = detected_ms;
  requested_ms = none;
  response_ms = none;
  cessation_ms = none;
  request_delivered = false;
}

pub attempt_cancel : CancellationWindow → ℕ → Bool → CancellationWindow × Bool
attempt_cancel w now delivered =
    if is_some w.requested_ms || ltb now w.detected_ms
    then (w, false)
    else (record w { requested_ms = some now; request_delivered = delivered }, true)

pub observe_response : CancellationWindow → ℕ → CancellationWindow × Bool
observe_response w now =
    if not (is_some w.requested_ms)
      || (is_some w.response_ms || ltb now (value_or w.requested_ms 0))
    then (w, false)
    else (record w { response_ms = some now }, true)

pub confirm_cessation : CancellationWindow → ℕ → CancellationWindow × Bool
confirm_cessation w now =
    if not (is_some w.requested_ms)
      || (is_some w.cessation_ms || ltb now (value_or w.requested_ms 0))
    then (w, false)
    else (record w { cessation_ms = some now }, true)

-- `*response_ms_ - *requested_ms_ <= cancellation_response_deadline_ms`, where there is a response.
pub timely_response : Option ℕ → ℕ → Bool
timely_response none requested = false
timely_response (some response) requested =
    leb (sub_u64 response requested) cancellation_response_deadline_ms

pub deadline_reason : CancellationWindow → ℕ → ℕ → Option CancellationDeadlineReason
unfolding timely_response
deadline_reason w requested elapsed =
    if leb cancellation_wait_deadline_ms elapsed
    then some wait_timeout
    else if not (timely_response w.response_ms requested)
        && leb cancellation_response_deadline_ms elapsed
    then some response_timeout
    else none

pub diagnose :
    CancellationWindow
    → ℕ
    → ℕ
    → Option CancellationDeadlineReason
    → Option CancellationDeadlineDiagnostic
diagnose w requested elapsed none = none
diagnose w requested elapsed (some reason) = some (record {
  trigger = w.trigger;
  reason = reason;
  evidence_result = incomplete;
  cancellation_attempted = true;
  request_delivered = w.request_delivered;
  response_received = is_some w.response_ms;
  cessation_confirmed = false;
  detected_ms = w.detected_ms;
  requested_ms = requested;
  elapsed_since_request_ms = elapsed;
})

pub check : CancellationWindow → ℕ → Option CancellationDeadlineDiagnostic
unfolding diagnose deadline_reason
check w now =
    let requested = value_or w.requested_ms 0 in
    let elapsed = sub_u64 now requested in
    if not (is_some w.requested_ms) || (ltb now requested || is_some w.cessation_ms)
    then none
    else diagnose w requested elapsed (deadline_reason w requested elapsed)

pub data Event : Type 0 where
  cancels : ℕ → Bool → Event
  responds ceases : ℕ → Event

pub step : CancellationWindow → Event → CancellationWindow
unfolding attempt_cancel observe_response confirm_cessation
step w (cancels now delivered) = (attempt_cancel w now delivered).0
step w (responds now) = (observe_response w now).0
step w (ceases now) = (confirm_cessation w now).0

pub run : CancellationWindow → List Event → CancellationWindow
run w [] = w
run w (e ∷ es) = run (step w e) es
