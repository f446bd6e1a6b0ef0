-- ===== src/AudioQa/CancellationWindow/Examples.antt =====
-- A cancellation without a timely response (tools/audio_qa/cancellation_window.cpp).
use ayther_runtime.Prelude.{◌≡◌, ◌↔◌, refl, true, some, List, [], ◌∷◌, All, arith, is_some}
use ayther_runtime.AudioQa.CancellationWindow.{
  no_progress, response_timeout, wait_timeout, new, check, diagnose, deadline_reason,
  timely_response, attempt_cancel, observe_response, Event, cancels, responds, step, run,
}
use ayther_runtime.AudioQa.CancellationWindow.Deadlines.{
  IsWord, Waits, Late, requested_at, responded_at, ceased_at, reason_of, check_deadlines,
}

abbrev events : List Event
events = cancels 90 true ∷ cancels 100 true ∷ responds 2200 ∷ responds 2300 ∷ []

words : All IsWord events
words = (omega arith, (omega arith, (omega arith, (omega arith, tt))))

check_deadlines_example :
    let w = run (new no_progress 95) events in
    ((reason_of (check w 2500) ≡ some wait_timeout)
      ↔ Waits (requested_at 95 events) (ceased_at 95 events) 2500 5000)
    × ((reason_of (check w 2500) ≡ some response_timeout) ↔ (
        Waits (requested_at 95 events) (ceased_at 95 events) 2500 2000
        × Late (responded_at 95 events) (requested_at 95 events)
        × (¬ Waits (requested_at 95 events) (ceased_at 95 events) 2500 5000)))
check_deadlines_example = check_deadlines no_progress 95 2500 events (omega arith) words

overdue : is_some (check (run (new no_progress 95) events) 2500) ≡ true
unfolding check diagnose deadline_reason timely_response run step attempt_cancel observe_response
    new
overdue = refl
