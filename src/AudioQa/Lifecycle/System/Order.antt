-- ===== src/AudioQa/Lifecycle/System/Order.antt =====
-- Who ends a run, and that an ended run stays as it ended (tools/audio_qa: run_lifecycle.cpp,
-- replay_terminal_arbiter.cpp, replay_cancellation.cpp, evidence_close.cpp).
use ayther_runtime.Prelude.{
  ◌≤◌, ◌≡◌, Bool, true, false, Option, none, some, List, [], ◌∷◌, arith, refl, ◌∙◌,
}
use ayther_runtime.AudioQa.CancellationWindow.{EvidenceResult}
use ayther_runtime.AudioQa.Lifecycle
use ayther_runtime.AudioQa.Lifecycle.{
  Phase, preparing, ready, playing, closing, closed, PlaybackResult, not_started, cancelled, Run,
  RunTransitionError, RunLifecycle, mark_ready, start_playback, begin_closing, finish_closing,
}
use ayther_runtime.AudioQa.Lifecycle.Terminal.{ReplayTerminalEvent, valid, resolve}
use ayther_runtime.AudioQa.Lifecycle.Evidence.{EvidenceCloseReport, result_of, finish}
use ayther_runtime.AudioQa.Lifecycle.Cancellation.{
  ReplayCancellationRecord, handle_control, handle, valid_position, capture_request,
  apply_at_frame_boundary,
}
use ayther_runtime.AudioQa.Lifecycle.System.{
  Replay, new, Call, readies, starts, resolves, controls, captures, applies, closes, step, run,
}

-- The playback result comes from the one part that ended the replay: the accepted terminal event, or
-- the cancellation, which is applied no earlier than it was requested.
abbrev pub EndedBy : Option ReplayTerminalEvent → ReplayCancellationRecord → PlaybackResult → Type 0
EndedBy none c result =
    (c.applied ≡ true)
    × (c.requested ≡ true)
    × (result ≡ cancelled)
    × (c.requested_after_frames ≤ c.applied_after_frames)
EndedBy (some event) c result = (c.applied ≡ false) × (result ≡ event.result) × (valid event ≡ true)

-- The evidence result says whether the kept report has a failure.
abbrev pub Reported : Option EvidenceCloseReport → EvidenceResult → Type 0
Reported none result = ⊥
Reported (some report) result = result ≡ result_of report.failure

-- Nothing has ended, and the playback has a result of a run that goes on.
abbrev pub Open : Replay → PlaybackResult → Type 0
Open r result =
    (r.lifecycle.run.playback_result ≡ result)
    × (r.lifecycle.run.evidence_result ≡ EvidenceResult.pending)
    × (r.terminal ≡ none)
    × (r.cancellation.applied ≡ false)
    × (r.report ≡ none)

-- What holds in each phase.
abbrev pub InPhase : Phase → Replay → Type 0
InPhase preparing r = Open r not_started
InPhase ready r = Open r not_started
InPhase playing r = Open r PlaybackResult.in_progress
InPhase closing r =
    EndedBy r.terminal r.cancellation r.lifecycle.run.playback_result
    × (r.lifecycle.run.evidence_result ≡ EvidenceResult.pending)
    × (r.report ≡ none)
InPhase closed r =
    EndedBy r.terminal r.cancellation r.lifecycle.run.playback_result
    × Reported r.report r.lifecycle.run.evidence_result

abbrev Inv : Replay → Type 0
Inv r = (r.lifecycle.error ≡ RunTransitionError.none) × InPhase r.lifecycle.run.phase r

step-Inv : (r : Replay) (c : Call) → Inv r → Inv (step r c)
unfolding step mark_ready start_playback begin_closing finish_closing resolve handle capture_request
    apply_at_frame_boundary finish valid_position
step-Inv r readies v = ground arith
step-Inv r starts v = ground arith
step-Inv r (resolves event) v = ground arith
step-Inv r (controls command) v = ground arith
step-Inv r (captures frames engine_frame) v = ground arith
step-Inv r (applies frames engine_frame) v = ground arith
step-Inv r (closes report) v = ground arith

run_from-Inv : (r : Replay) (cs : List Call) → Inv r → Inv (run r cs)
unfolding run
run_from-Inv r [] v = v
run_from-Inv r (c ∷ cs) v = run_from-Inv (step r c) cs (step-Inv r c v)

-- From a run that starts as it must, after any calls of the terminal arbiter, the control gate, the
-- cancellation and the evidence close in any order: before the close nothing has ended; from then on
-- the playback result is the one of the accepted terminal event, with the cancellation not applied,
-- or it is `cancelled`, with no terminal event accepted and the cancellation applied no earlier than
-- it was requested; and a closed run has one report, which decides its evidence result.
pub one_part_ends :
    (w : Run) (cs : List Call)
    → (Lifecycle.new w).error ≡ RunTransitionError.none
    → let r = run (new w) cs in InPhase r.lifecycle.run.phase r
unfolding new Lifecycle.new
one_part_ends w cs e = (run_from-Inv (new w) cs (ground arith)).1

abbrev pub is_ended : Phase → Bool
is_ended closing = true
is_ended closed = true
is_ended p = false

-- What an ended replay keeps.
abbrev pub Kept : Replay → Replay → Type 0
Kept r s =
    (is_ended s.lifecycle.run.phase ≡ true)
    × (s.lifecycle.run.playback_result ≡ r.lifecycle.run.playback_result)
    × (s.terminal ≡ r.terminal)
    × (s.cancellation.applied ≡ r.cancellation.applied)

step-Kept :
    (r : Replay) (c : Call) → Inv r → is_ended r.lifecycle.run.phase ≡ true → Kept r (step r c)
unfolding step mark_ready start_playback begin_closing finish_closing resolve handle handle_control
    capture_request apply_at_frame_boundary finish valid_position
step-Kept r readies v e = ground arith
step-Kept r starts v e = ground arith
step-Kept r (resolves event) v e = ground arith
step-Kept r (controls command) v e = ground arith
step-Kept r (captures frames engine_frame) v e = ground arith
step-Kept r (applies frames engine_frame) v e = ground arith
step-Kept r (closes report) v e = ground arith

run-Kept :
    (r : Replay) (cs : List Call)
    → Inv r
    → is_ended r.lifecycle.run.phase ≡ true
    → Kept r (run r cs)
unfolding run
run-Kept r [] v e = (e, refl, refl, refl)
run-Kept r (c ∷ cs) v e =
    let k = step-Kept r c v e in
    let m = run-Kept (step r c) cs (step-Inv r c v) k.0 in (m.0, m.1 ∙ k.1, m.2 ∙ k.2, m.3 ∙ k.3)

-- The first end of a replay is its last: once a run has begun to close, no later call changes its
-- playback result, the terminal event that was accepted, or whether the cancellation was applied.
pub first_end-Kept :
    (w : Run) (cs ds : List Call)
    → (Lifecycle.new w).error ≡ RunTransitionError.none
    → is_ended (run (new w) cs).lifecycle.run.phase ≡ true
    → Kept (run (new w) cs) (run (run (new w) cs) ds)
unfolding new Lifecycle.new
first_end-Kept w cs ds e k = run-Kept (run (new w) cs) ds (run_from-Inv (new w) cs (ground arith)) k
