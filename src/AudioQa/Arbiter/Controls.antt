-- ===== src/AudioQa/Arbiter/Controls.antt =====
-- What becomes of the inspection controls of a take
-- (tools/audio_qa/request_terminal_arbiter.cpp).
use ayther_runtime.Prelude.{
  ℕ, suc, ◌+◌, ◌≤◌, ◌<◌, ◌≡◌, true, false, ◌&&◌, ◌||◌, List, [], ◌∷◌, arith, if◌then◌else◌, is_some,
  length, ltb,
}
use ayther_runtime.Prelude.Word.{u64_mod}
use ayther_runtime.AudioQa.Arbiter.{
  Arbiter, begin_take, playback, step, run, Event, cancels, ends, queues, sends, confirms, fails,
  cancel, fail, end_naturally, queue_control, control_sent, confirm, stop_for, discard_pending,
}

abbrev pub queued : List Event → ℕ
queued [] = 0
queued (queues ∷ es) = suc (queued es)
queued (e ∷ es) = queued es

-- A control is sent where one is pending.
abbrev pub is_sent : Arbiter → Event → ℕ
is_sent a sends = if ltb 0 a.pending_controls then 1 else 0
is_sent a e = 0

abbrev pub sent : Arbiter → List Event → ℕ
sent a [] = 0
sent a (e ∷ es) = is_sent a e + sent (step a e) es

abbrev pub total : Arbiter → ℕ
total a = a.pending_controls + a.discarded_controls

abbrev Cleared : Arbiter → Type 0
Cleared a = a.was_cancelled || is_some a.failure ≡ true → a.pending_controls ≡ 0

is_queue : Event → ℕ
is_queue queues = 1
is_queue e = 0

step_total :
    (a : Arbiter) (e : Event)
    → suc (total a) < u64_mod
    → total (step a e) + is_sent a e ≡ total a + is_queue e
unfolding is_queue step cancel fail end_naturally queue_control control_sent confirm stop_for
    discard_pending playback
step_total a cancels h = ground arith
step_total a (fails text i) h = ground arith
step_total a ends h = ground arith
step_total a queues h = ground arith
step_total a sends h = ground arith
step_total a confirms h = ground arith

step-Cleared : (a : Arbiter) (e : Event) → Cleared a → Cleared (step a e)
unfolding step cancel fail end_naturally queue_control control_sent confirm stop_for discard_pending
    playback
step-Cleared a cancels h = ground arith
step-Cleared a (fails text i) h = ground arith
step-Cleared a ends h = ground arith
step-Cleared a queues h = ground arith
step-Cleared a sends h = ground arith
step-Cleared a confirms h = ground arith

run-Cleared : (a : Arbiter) (es : List Event) → Cleared a → Cleared (run a es)
unfolding run
run-Cleared a [] h = h
run-Cleared a (e ∷ es) h = run-Cleared (step a e) es (step-Cleared a e h)

is_queue≤1 : (e : Event) → is_queue e ≤ 1
unfolding is_queue
is_queue≤1 queues = ground arith
is_queue≤1 cancels = ground arith
is_queue≤1 (fails text i) = ground arith
is_queue≤1 ends = ground arith
is_queue≤1 sends = ground arith
is_queue≤1 confirms = ground arith

queued-cons : (e : Event) (es : List Event) → queued (e ∷ es) ≡ is_queue e + queued es
unfolding is_queue
queued-cons queues es = ground arith
queued-cons cancels es = ground arith
queued-cons (fails text i) es = ground arith
queued-cons ends es = ground arith
queued-cons sends es = ground arith
queued-cons confirms es = ground arith

run_total :
    (a : Arbiter) (es : List Event)
    → total a + length es < u64_mod
    → total (run a es) + sent a es ≡ total a + queued es
unfolding run
run_total a [] h = omega arith
run_total a (e ∷ es) h =
    let s = step_total a e (omega arith) in
    let q = is_queue≤1 e in omega (arith, run_total (step a e) es (omega arith), queued-cons e es)

-- Every inspection control queued in a take of fewer than 2^64 events is sent, is still pending or
-- is counted as discarded, exactly once; and once a cancellation or a failure decided the take,
-- none is pending.
pub controls_conserved :
    (a : Arbiter) (es : List Event)
    → length es < u64_mod
    → let b = run (begin_take a) es in
      (b.pending_controls + b.discarded_controls + sent (begin_take a) es ≡ queued es)
      × ((b.was_cancelled || is_some b.failure) && ltb 0 b.pending_controls ≡ false)
unfolding begin_take
controls_conserved a es h = (
  omega (arith, run_total (begin_take a) es (omega arith)),
  ground (arith, run-Cleared (begin_take a) es (ground arith)),
)
