-- ===== src/AudioQa/Watchdog/Examples.antt =====
-- A playback that stops after its second frame (tools/audio_qa/progress_watchdog.cpp).
use ayther_runtime.Prelude.{◌+◌, ◌≤◌, ◌≡◌, ◌↔◌, some, List, [], ◌∷◌, arith}
use ayther_runtime.AudioQa.Watchdog.{
  playback, total_time, no_progress, new, check, observe_completed_frame, observe_heartbeat,
  valid_time, beyond, Event, heartbeats, completes, step, run,
}
use ayther_runtime.AudioQa.Watchdog.Timeouts.{Exhausted, silence, reason_of, check_timeouts}

abbrev events : List Event
events = completes 0 10 ∷ completes 1 26 ∷ heartbeats 3000 ∷ completes 1 4000 ∷ []

check_timeouts_example :
    let w = run (new playback 0) events in
    ((reason_of (check w 6000) ≡ some total_time)
      ↔ ((w.last_observed_ms ≤ 6000) × Exhausted playback 0 6000))
    × ((reason_of (check w 6000) ≡ some no_progress) ↔ (
        (w.last_observed_ms ≤ 6000)
        × (w.last_progress_ms + silence playback ≤ 6000)
        × (¬ Exhausted playback 0 6000)))
check_timeouts_example = check_timeouts playback 0 6000 events (omega arith)

in_order : (run (new playback 0) events).last_observed_ms ≤ 5000
unfolding run new step observe_completed_frame observe_heartbeat valid_time beyond
in_order = omega arith
