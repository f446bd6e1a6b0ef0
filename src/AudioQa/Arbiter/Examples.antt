-- ===== src/AudioQa/Arbiter/Examples.antt =====
-- A take that ends naturally before a cancellation
-- (tools/audio_qa/request_terminal_arbiter.cpp).
use ayther_runtime.Prelude.{
  ◌+◌, ◌≡◌, ◌≢◌, true, false, ◌&&◌, ◌||◌, List, [], ◌∷◌, arith, is_some, ltb,
}
use ayther_runtime.AudioQa.Arbiter.{
  Arbiter, Stop, new, begin_take, playback, cancel, run, Event, cancels, ends, queues, sends,
  confirms, fails,
}
use ayther_runtime.AudioQa.Arbiter.Verdict.{verdict, take_verdict}
use ayther_runtime.AudioQa.Arbiter.Controls.{queued, sent, controls_conserved}

abbrev events : List Event
events =
    queues ∷ queues ∷ sends ∷ ends ∷ confirms ∷ queues ∷ cancels ∷ fails "channel_lost" true ∷ []

take_verdict_example : playback (run (begin_take new) events) ≡ verdict false events
take_verdict_example = take_verdict new events

controls_conserved_example :
    let b = run (begin_take new) events in
    (b.pending_controls + b.discarded_controls + sent (begin_take new) events ≡ queued events)
    × ((b.was_cancelled || is_some b.failure) && ltb 0 b.pending_controls ≡ false)
controls_conserved_example = controls_conserved new events (omega arith)

-- A request that was cancelled before its first take.
abbrev stopped : Arbiter
stopped = (cancel new).0

stopped_for : stopped.stop ≢ Stop.none
unfolding cancel new
stopped_for e = ground arith
