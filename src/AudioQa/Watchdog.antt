-- ===== src/AudioQa/Watchdog.antt =====
-- tools/audio_qa/progress_watchdog.h and progress_watchdog.cpp: when a phase of a run counts as
-- stuck. Times and sizes are 64-bit words, stages are texts.
pub mod Timeouts
pub mod Monotonic
mod Examples
use Prim.Native.String.{String}
use text.Mathlib.Text.{◌==◌ as str_eq}
use ayther_runtime.Prelude.{
  ℕ, ◌+◌, Bool, true, false, not, ◌&&◌, ◌||◌, Option, none, some, List, [], ◌∷◌, ltb, leb, ◌==◌,
  if◌then◌else◌, is_some, value_or,
}
use ayther_runtime.Prelude.Word.{sub_u64, add_u64}
use ayther_runtime.AudioQa.CancellationWindow.{EvidenceResult, incomplete}

pub data WatchdogPhase : Type 0 where
  preparation playback closing : WatchdogPhase

pub data WatchdogTimeoutReason : Type 0 where
  no_progress total_time : WatchdogTimeoutReason

pub record WatchdogPolicy : Type 0 where
  pub no_progress_ms : ℕ
  pub total_ms : ℕ

-- `policy`, with the three constants that it returns.
pub policy : WatchdogPhase → WatchdogPolicy
policy preparation = record { no_progress_ms = 120000; total_ms = 300000 }
policy playback = record { no_progress_ms = 5000; total_ms = 0 }
policy closing = record { no_progress_ms = 10000; total_ms = 0 }

pub record WatchdogTimeout : Type 0 where
  pub phase : WatchdogPhase
  pub reason : WatchdogTimeoutReason
  pub evidence_result : EvidenceResult
  pub last_preparation_stage : String
  pub last_completed_frame : Option ℕ
  pub bytes_received : ℕ
  pub bytes_durable : ℕ
  pub last_progress_ms : ℕ
  pub elapsed_total_ms : ℕ

pub record ProgressWatchdog : Type 0 where
  pub phase : WatchdogPhase
  pub started_ms : ℕ
  pub last_observed_ms : ℕ
  pub last_progress_ms : ℕ
  pub last_preparation_stage : String
  pub last_completed_frame : Option ℕ
  pub bytes_received : ℕ
  pub bytes_durable : ℕ

pub new : WatchdogPhase → ℕ → ProgressWatchdog
new phase started_ms = record {
  phase = phase;
  started_ms = started_ms;
  last_observed_ms = started_ms;
  last_progress_ms = started_ms;
  last_preparation_stage = "";
  last_completed_frame = none;
  bytes_received = 0;
  bytes_durable = 0;
}

abbrev pub is_preparation : WatchdogPhase → Bool
is_preparation preparation = true
is_preparation p = false

abbrev pub is_playback : WatchdogPhase → Bool
is_playback playback = true
is_playback p = false

abbrev pub is_closing : WatchdogPhase → Bool
is_closing closing = true
is_closing p = false

pub valid_time : ProgressWatchdog → ℕ → Bool
valid_time w now = leb w.started_ms now && leb w.last_observed_ms now

pub observe_heartbeat : ProgressWatchdog → ℕ → ProgressWatchdog × Bool
unfolding valid_time
observe_heartbeat w now =
    if not (valid_time w now) then (w, false) else (record w { last_observed_ms = now }, true)

pub observe_preparation_stage : ProgressWatchdog → String → ℕ → ProgressWatchdog × Bool
unfolding valid_time
observe_preparation_stage w stage now =
    if not (is_preparation w.phase) || (str_eq stage "" || not (valid_time w now))
    then (w, false)
    else if str_eq stage w.last_preparation_stage
    then (record w { last_observed_ms = now }, true)
    else (
      record w { last_observed_ms = now; last_preparation_stage = stage; last_progress_ms = now },
      true,
    )

-- `!last.has_value() || frame > *last`.
pub beyond : Option ℕ → ℕ → Bool
beyond none frame = true
beyond (some last) frame = ltb last frame

pub observe_completed_frame : ProgressWatchdog → ℕ → ℕ → ProgressWatchdog × Bool
unfolding valid_time beyond
observe_completed_frame w frame now =
    if not (is_playback w.phase) || not (valid_time w now)
    then (w, false)
    else if beyond w.last_completed_frame frame
    then (
      record w {
        last_observed_ms = now;
        last_completed_frame = some frame;
        last_progress_ms = now;
      },
      true,
    )
    else (record w { last_observed_ms = now }, true)

pub observe_bytes_received : ProgressWatchdog → ℕ → ℕ → ProgressWatchdog × Bool
unfolding valid_time
observe_bytes_received w bytes now =
    if not (is_closing w.phase) || (not (valid_time w now) || ltb bytes w.bytes_received)
    then (w, false)
    else (record w { last_observed_ms = now; bytes_received = bytes }, true)

pub observe_bytes_durable : ProgressWatchdog → ℕ → ℕ → ProgressWatchdog × Bool
unfolding valid_time
observe_bytes_durable w bytes now =
    if not (is_closing w.phase)
      || (not (valid_time w now) || (ltb bytes w.bytes_durable || ltb w.bytes_received bytes))
    then (w, false)
    else if ltb w.bytes_durable bytes
    then (record w { last_observed_ms = now; bytes_durable = bytes; last_progress_ms = now }, true)
    else (record w { last_observed_ms = now }, true)

pub timeout_reason : ProgressWatchdog → ℕ → Option WatchdogTimeoutReason
unfolding policy
timeout_reason w now =
    let p = policy w.phase in
    if not (p.total_ms == 0) && leb p.total_ms (sub_u64 now w.started_ms)
    then some total_time
    else if leb p.no_progress_ms (sub_u64 now w.last_progress_ms)
    then some no_progress
    else none

pub report : ProgressWatchdog → ℕ → Option WatchdogTimeoutReason → Option WatchdogTimeout
report w now none = none
report w now (some reason) = some (record {
  phase = w.phase;
  reason = reason;
  evidence_result = incomplete;
  last_preparation_stage = w.last_preparation_stage;
  last_completed_frame = w.last_completed_frame;
  bytes_received = w.bytes_received;
  bytes_durable = w.bytes_durable;
  last_progress_ms = w.last_progress_ms;
  elapsed_total_ms = sub_u64 now w.started_ms;
})

pub check : ProgressWatchdog → ℕ → Option WatchdogTimeout
unfolding valid_time timeout_reason report
check w now = if not (valid_time w now) then none else report w now (timeout_reason w now)

-- What the supervisor observes, each at a time.
pub data Event : Type 0 where
  heartbeats : ℕ → Event
  reaches : String → ℕ → Event
  completes receives stores : ℕ → ℕ → Event

pub step : ProgressWatchdog → Event → ProgressWatchdog
unfolding observe_heartbeat observe_preparation_stage observe_completed_frame observe_bytes_received
    observe_bytes_durable
step w (heartbeats now) = (observe_heartbeat w now).0
step w (reaches stage now) = (observe_preparation_stage w stage now).0
step w (completes frame now) = (observe_completed_frame w frame now).0
step w (receives bytes now) = (observe_bytes_received w bytes now).0
step w (stores bytes now) = (observe_bytes_durable w bytes now).0

pub run : ProgressWatchdog → List Event → ProgressWatchdog
run w [] = w
run w (e ∷ es) = run (step w e) es

-- `MonotonicProgress`.
pub record MonotonicProgress : Type 0 where
  pub last : Option ℕ
  pub total : ℕ

pub new_progress : MonotonicProgress
new_progress = record { last = none; total = 0 }

pub advance : Option ℕ → ℕ → ℕ → ℕ
advance none total position = total
advance (some last) total position =
    add_u64 total (if leb last position then sub_u64 position last else sub_u64 last position)

-- `MonotonicProgress::observe`.
pub observe : MonotonicProgress → ℕ → MonotonicProgress × ℕ
unfolding advance
observe m position =
    let total = advance m.last m.total position in
    (record { last = some position; total = total }, total)
