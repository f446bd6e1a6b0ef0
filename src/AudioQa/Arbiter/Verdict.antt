-- ===== src/AudioQa/Arbiter/Verdict.antt =====
-- Which event decides a take (tools/audio_qa/request_terminal_arbiter.cpp).
use Prim.Native.String.{String}
use ayther_runtime.Prelude.{
  ◌≡◌, ◌≢◌, refl, ◌∙◌, Bool, true, false, ◌||◌, Option, List, [], ◌∷◌, arith, if◌then◌else◌,
  is_some,
}
use ayther_runtime.AudioQa.Arbiter.{
  PlaybackKind, PlaybackOutcome, Arbiter, Stop, begin_take, playback, step, run, Event, cancels,
  ends, queues, sends, confirms, fails, cancel, fail, end_naturally, queue_control, control_sent,
  confirm, stop_for, discard_pending, not_started_reason,
}

abbrev pub outcome : PlaybackKind → String → Option PlaybackOutcome
outcome k text = Option.some (record { kind = k; diagnostic = text })

-- An independent description: the first cancellation or failure decides, unless a natural end was
-- confirmed before it; a natural end decides if nothing else does.
abbrev pub verdict : Bool → List Event → Option PlaybackOutcome
verdict ended [] = if ended then outcome PlaybackKind.natural_end "" else Option.none
verdict ended (cancels ∷ es) = outcome PlaybackKind.cancelled ""
verdict ended (fails text i ∷ es) =
    outcome (if i then PlaybackKind.interrupted else PlaybackKind.failed) text
verdict ended (ends ∷ es) = verdict true es
verdict ended (confirms ∷ es) =
    let rest = verdict ended es in if ended then outcome PlaybackKind.natural_end "" else rest
verdict ended (queues ∷ es) = verdict ended es
verdict ended (sends ∷ es) = verdict ended es

-- A take that has a cancellation, a failure or a confirmed result keeps its playback.
abbrev decided : Arbiter → Bool
decided a = a.confirmed || (a.was_cancelled || is_some a.failure)

step-decided :
    (a : Arbiter) (e : Event)
    → decided a ≡ true
    → (decided (step a e) ≡ true) × (playback (step a e) ≡ playback a)
unfolding step cancel fail end_naturally queue_control control_sent confirm stop_for discard_pending
    playback
step-decided a cancels h = ground arith
step-decided a (fails text i) h = ground arith
step-decided a ends h = ground arith
step-decided a queues h = ground arith
step-decided a sends h = ground arith
step-decided a confirms h = ground arith

run-decided : (a : Arbiter) (es : List Event) → decided a ≡ true → playback (run a es) ≡ playback a
unfolding run
run-decided a [] h = refl
run-decided a (e ∷ es) h = run-decided (step a e) es (step-decided a e h).0 ∙ (step-decided a e h).1

-- A confirmed result stays the result of the take, whatever cancellations, failures, ends,
-- controls and confirmations follow.
pub confirmed_result_kept :
    (a : Arbiter) (es : List Event) → a.confirmed ≡ true → playback (run a es) ≡ playback a
confirmed_result_kept a es h = run-decided a es (ground arith)

-- An active take that nothing decided yet, with or without a natural end.
abbrev Open : Bool → Arbiter → Type 0
Open ended a =
    (a.take_active ≡ true)
    × (a.confirmed ≡ false)
    × (a.was_cancelled ≡ false)
    × (a.failure ≡ Option.none)
    × (a.ended_naturally ≡ ended)

run-Open :
    (ended : Bool) (a : Arbiter) (es : List Event)
    → Open ended a
    → playback (run a es) ≡ verdict ended es
unfolding run step cancel fail end_naturally queue_control control_sent confirm stop_for
    discard_pending playback
run-Open ended a [] o = ground arith
run-Open ended a (cancels ∷ es) o = run-decided (step a cancels) es (ground arith) ∙ ground arith
run-Open ended a (fails text i ∷ es) o =
    run-decided (step a (fails text i)) es (ground arith) ∙ ground arith
run-Open ended a (ends ∷ es) o = run-Open true (step a ends) es (ground arith)
run-Open ended a (queues ∷ es) o = run-Open ended (step a queues) es (ground arith)
run-Open ended a (sends ∷ es) o = run-Open ended (step a sends) es (ground arith)
run-Open true a (confirms ∷ es) o = run-decided (step a confirms) es (ground arith) ∙ ground arith
run-Open false a (confirms ∷ es) o = run-Open false (step a confirms) es (ground arith)

-- The result of a new take after any events is the one described independently: the first
-- cancellation or failure decides, unless a natural end was confirmed before it; otherwise a
-- natural end decides, and without one nothing does.
pub take_verdict :
    (a : Arbiter) (es : List Event) → playback (run (begin_take a) es) ≡ verdict false es
unfolding begin_take
take_verdict a es = run-Open false (begin_take a) es (ground arith)

step_stopped : (a : Arbiter) (e : Event) → a.stop ≢ Stop.none → (step a e).stop ≡ a.stop
unfolding step cancel fail end_naturally queue_control control_sent confirm stop_for discard_pending
    playback
step_stopped a cancels h = ground arith
step_stopped a (fails text i) h = ground arith
step_stopped a ends h = ground arith
step_stopped a queues h = ground arith
step_stopped a sends h = ground arith
step_stopped a confirms h = ground arith

run_stopped : (a : Arbiter) (es : List Event) → a.stop ≢ Stop.none → (run a es).stop ≡ a.stop
unfolding run
run_stopped a [] h = refl
run_stopped a (e ∷ es) h =
    run_stopped (step a e) es (rw (step_stopped a e h) h) ∙ step_stopped a e h

-- A request that has stopped keeps its first reason, and so what is said of the takes that did
-- not start, whatever events follow in the active take and in a further one.
pub first_stop_kept :
    (a : Arbiter) (es fs : List Event)
    → a.stop ≢ Stop.none
    → not_started_reason (run (begin_take (run a es)) fs) ≡ not_started_reason a
unfolding not_started_reason begin_take
first_stop_kept a es fs h =
    let e = run_stopped a es h in rw (run_stopped (begin_take (run a es)) fs (rw e h) ∙ e) refl
