-- ===== src/AudioQa/Watchdog/Timeouts.antt =====
-- When a phase is reported as stuck (tools/audio_qa/progress_watchdog.cpp).
use text.Mathlib.Text.{◌==◌ as str_eq}
use ayther_runtime.Prelude.{
  ℕ, ◌+◌, ◌≤◌, ◌<◌, ◌≡◌, ◌↔◌, refl, Bool, false, not, ◌&&◌, if◌then◌else◌, Option, none, some, List,
  [], ◌∷◌, arith, leb, ltb,
}
use ayther_runtime.Prelude.Word.{u64_mod}
use ayther_runtime.AudioQa.Watchdog.{
  WatchdogPhase, preparation, playback, closing, policy, WatchdogTimeout, WatchdogTimeoutReason,
  no_progress, total_time, ProgressWatchdog, new, is_preparation, is_playback, is_closing,
  valid_time, observe_heartbeat, observe_preparation_stage, observe_completed_frame,
  observe_bytes_received, observe_bytes_durable, beyond, timeout_reason, report, check, Event,
  heartbeats, reaches, completes, receives, stores, step, run,
}

-- Times do not fall, and no more bytes are stored than were received.
pub record Inv (w : ProgressWatchdog) : Type 0 where
  pub progress_started : w.started_ms ≤ w.last_progress_ms
  pub observed_progress : w.last_progress_ms ≤ w.last_observed_ms
  pub durable_received : w.bytes_durable ≤ w.bytes_received

step-Inv : (w : ProgressWatchdog) (e : Event) → Inv w → Inv (step w e)
unfolding step observe_heartbeat observe_preparation_stage observe_completed_frame
    observe_bytes_received observe_bytes_durable valid_time
step-Inv w (heartbeats now) v = ground arith
step-Inv w (reaches stage now) v = ground arith
step-Inv w (completes frame now) v = ground arith
step-Inv w (receives bytes now) v = ground arith
step-Inv w (stores bytes now) v = ground arith

run_from-Inv : (w : ProgressWatchdog) (es : List Event) → Inv w → Inv (run w es)
unfolding run
run_from-Inv w [] v = v
run_from-Inv w (e ∷ es) v = run_from-Inv (step w e) es (step-Inv w e v)

step_fixed :
    (w : ProgressWatchdog) (e : Event)
    → ((step w e).phase ≡ w.phase) × ((step w e).started_ms ≡ w.started_ms)
unfolding step observe_heartbeat observe_preparation_stage observe_completed_frame
    observe_bytes_received observe_bytes_durable valid_time
step_fixed w (heartbeats now) = ground arith
step_fixed w (reaches stage now) = ground arith
step_fixed w (completes frame now) = ground arith
step_fixed w (receives bytes now) = ground arith
step_fixed w (stores bytes now) = ground arith

run_fixed :
    (w : ProgressWatchdog) (es : List Event)
    → ((run w es).phase ≡ w.phase) × ((run w es).started_ms ≡ w.started_ms)
unfolding run
run_fixed w [] = (refl, refl)
run_fixed w (e ∷ es) = ground (arith, run_fixed (step w e) es, step_fixed w e)

-- The limits in milliseconds, as the header gives them: silence, and for the preparation alone a
-- total time.
abbrev pub silence : WatchdogPhase → ℕ
silence preparation = 120000
silence playback = 5000
silence closing = 10000

abbrev pub Exhausted : WatchdogPhase → ℕ → ℕ → Type 0
Exhausted preparation started now = started + 300000 ≤ now
Exhausted playback started now = ⊥
Exhausted closing started now = ⊥

abbrev pub reason_of : Option WatchdogTimeout → Option WatchdogTimeoutReason
reason_of none = none
reason_of (some t) = some t.reason

module _ (w : ProgressWatchdog) (now : ℕ) (h : now < u64_mod) (v : Inv w) (phase : WatchdogPhase)
    (started : ℕ) (p : w.phase ≡ phase) (s : w.started_ms ≡ started) where
  check_total :
      (reason_of (check w now) ≡ some total_time)
      ↔ ((w.last_observed_ms ≤ now) × Exhausted phase started now)
  unfolding check valid_time timeout_reason report policy
  check_total = (λ e. ground arith, λ o. ground arith)

  check-silence : (reason_of (check w now) ≡ some no_progress) ↔ (
      (w.last_observed_ms ≤ now)
      × (w.last_progress_ms + silence phase ≤ now)
      × (¬ Exhausted phase started now))
  unfolding check valid_time timeout_reason report policy
  check-silence = (λ e. ground arith, λ o. ground arith)

-- After any events, a check at a time not before the last event reports the total time exactly
-- if it is a preparation that began 5 minutes ago, and otherwise a lack of progress exactly if the
-- last progress is as long ago as the phase allows: 2 minutes, 5 s or 10 s.
pub check_timeouts :
    (phase : WatchdogPhase) (started now : ℕ) (es : List Event)
    → now < u64_mod
    → let w = run (new phase started) es in
      ((reason_of (check w now) ≡ some total_time)
        ↔ ((w.last_observed_ms ≤ now) × Exhausted phase started now))
      × ((reason_of (check w now) ≡ some no_progress) ↔ (
          (w.last_observed_ms ≤ now)
          × (w.last_progress_ms + silence phase ≤ now)
          × (¬ Exhausted phase started now)))
unfolding new
check_timeouts phase started now es h =
    let w = run (new phase started) es in
    let v = run_from-Inv (new phase started) es (ground arith) in
    let f = run_fixed (new phase started) es in
    (check_total w now h v phase started f.0 f.1, check-silence w now h v phase started f.0 f.1)

-- What counts as progress: a new stage of a preparation, a frame beyond those completed, bytes
-- stored beyond those stored and within those received.
abbrev pub advances : ProgressWatchdog → Event → Bool
advances w (heartbeats now) = false
advances w (reaches stage now) =
    is_preparation w.phase && (not (str_eq stage "") && not (str_eq stage w.last_preparation_stage))
advances w (completes frame now) = is_playback w.phase && beyond w.last_completed_frame frame
advances w (receives bytes now) = false
advances w (stores bytes now) =
    is_closing w.phase && (ltb w.bytes_durable bytes && leb bytes w.bytes_received)

abbrev pub time_of : Event → ℕ
time_of (heartbeats now) = now
time_of (reaches stage now) = now
time_of (completes frame now) = now
time_of (receives bytes now) = now
time_of (stores bytes now) = now

step_progress :
    (w : ProgressWatchdog) (e : Event)
    → w.started_ms ≤ w.last_observed_ms
    → w.last_observed_ms ≤ time_of e
    → (step w e).last_progress_ms ≡ (if advances w e then time_of e else w.last_progress_ms)
unfolding step observe_heartbeat observe_preparation_stage observe_completed_frame
    observe_bytes_received observe_bytes_durable valid_time
step_progress w (heartbeats now) s t = ground arith
step_progress w (reaches stage now) s t = ground arith
step_progress w (completes frame now) s t = ground arith
step_progress w (receives bytes now) s t = ground arith
step_progress w (stores bytes now) s t = ground arith

-- After any events, an event that does not come before what was observed moves the last progress
-- to its time exactly if it is real progress: a new stage, a further frame or newly stored bytes.
-- Heartbeats, received bytes and what is known already leave it where it was, and so never put
-- off the timeout.
pub only_progress_counts :
    (phase : WatchdogPhase) (started : ℕ) (es : List Event) (e : Event)
    → (run (new phase started) es).last_observed_ms ≤ time_of e
    → let w = run (new phase started) es in
      (step w e).last_progress_ms ≡ (if advances w e then time_of e else w.last_progress_ms)
unfolding new
only_progress_counts phase started es e h =
    let w = run (new phase started) es in
    let v = run_from-Inv (new phase started) es (ground arith) in step_progress w e (omega arith) h
