-- ===== src/AudioQa/Progress/Trace.antt =====
-- The observer sees one fixed sequence (tools/audio_qa/replay_progress.cpp).
use ayther_runtime.Prelude.{
  ℕ, suc, ◌≤◌, ◌<◌, ◌≡◌, Bool, true, false, Option, none, some, List, [], ◌∷◌, arith, emit,
  if◌then◌else◌, ltb,
}
use ayther_runtime.Prelude.Word.{u32_mod}
use ayther_runtime.AudioQa.Progress.{
  ReplayProgressKind, ReplayProgressEvent, request_accepted, replay_started, input_consumed,
  frame_completed, replay_finished, pending, accepted, started, finished, Publisher, new, event_of,
  publish_acceptance, publish_start, publish_input, publish_frame, publish_finish, Call, accepts,
  starts, finishes, consumes, completes, step, events,
}

-- Where a replay stands, independently of the publisher: after the acceptance, after the start,
-- with a number of frames complete and perhaps the next input consumed, or at the end.
pub data Stage : Type 0 where
  requested admitted over : Stage
  before_input before_frame : ℕ → Stage

-- The kind and the frame of the event that leaves each stage, and the stage after it.
abbrev pub next : ℕ → Stage → ReplayProgressKind × ℕ × Stage
next total requested = (request_accepted, 0, admitted)
next total admitted = (replay_started, 0, before_input 0)
next total (before_input k) =
    if ltb k total then (input_consumed, k, before_frame k) else (replay_finished, total, over)
next total (before_frame k) = (frame_completed, k, before_input (suc k))
next total over = (replay_finished, total, over)

abbrev pub is_over : Stage → Bool
is_over over = true
is_over s = false

-- Events that follow the stages one by one and stop anywhere.
abbrev pub Follows : ℕ → Stage → List ReplayProgressEvent → Type 0
Follows total s [] = Unit {0}
Follows total s (e ∷ es) =
    (is_over s ≡ false)
    × (e.kind ≡ (next total s).0)
    × (e.recording_frame ≡ (next total s).1)
    × (e.total_inputs ≡ total)
    × Follows total (next total s).2 es

-- A publisher that stands at a stage of a replay.
abbrev At : ℕ → Stage → Publisher → Type 0
At total requested p =
    (p.total_inputs ≡ total)
    × (p.state ≡ pending)
    × (p.inputs_consumed ≡ 0)
    × (p.frames_completed ≡ 0)
At total admitted p =
    (p.total_inputs ≡ total)
    × (p.state ≡ accepted)
    × (p.inputs_consumed ≡ 0)
    × (p.frames_completed ≡ 0)
At total (before_input k) p =
    (p.total_inputs ≡ total)
    × (p.state ≡ started)
    × (p.inputs_consumed ≡ k)
    × (p.frames_completed ≡ k)
    × (k ≤ total)
At total (before_frame k) p =
    (p.total_inputs ≡ total)
    × (p.state ≡ started)
    × (p.inputs_consumed ≡ suc k)
    × (p.frames_completed ≡ k)
    × (k < total)
At total over p = (p.total_inputs ≡ total) × (p.state ≡ finished)

-- What a call gives at a stage: nothing, and the publisher stays, or the event that leaves it.
abbrev Moves : ℕ → Stage → Publisher → Publisher → Option ReplayProgressEvent → Type 0
Moves total s p q none = q ≡ p
Moves total s p q (some e) =
    (is_over s ≡ false)
    × (e.kind ≡ (next total s).0)
    × (e.recording_frame ≡ (next total s).1)
    × (e.total_inputs ≡ total)
    × At total (next total s).2 q

module _ (total : ℕ) (h : total < u32_mod) where
  step-Moves :
      (s : Stage) (p : Publisher) (c : Call)
      → At total s p
      → Moves total s p (step p c).0 (step p c).2
  unfolding step publish_acceptance publish_start publish_input publish_frame publish_finish
      event_of
  step-Moves requested p accepts a = ground arith
  step-Moves requested p _ a = ground arith
  step-Moves admitted p starts a = ground arith
  step-Moves admitted p _ a = ground arith
  step-Moves (before_input k) p accepts a = ground arith
  step-Moves (before_input k) p starts a = ground arith
  step-Moves (before_input k) p finishes a = ground arith
  step-Moves (before_input k) p (consumes f) a = ground arith
  step-Moves (before_input k) p (completes f g) a = ground arith
  step-Moves (before_frame k) p accepts a = ground arith
  step-Moves (before_frame k) p starts a = ground arith
  step-Moves (before_frame k) p finishes a = ground arith
  step-Moves (before_frame k) p (consumes f) a = ground arith
  step-Moves (before_frame k) p (completes f g) a = ground arith
  step-Moves over p _ a = ground arith

  follow :
      (s : Stage) (p q : Publisher) (o : Option ReplayProgressEvent) (es : List ReplayProgressEvent)
      → At total s p
      → Moves total s p q o
      → ((t : Stage) → At total t q → Follows total t es)
      → Follows total s (emit o es)
  follow s p q none es a m rest = rest s (rw m a)
  follow s p q (some e) es a m rest = (m.0, m.1, m.2, m.3, rest (next total s).2 m.4)

  events_follow :
      (s : Stage) (p : Publisher) (cs : List Call) → At total s p → Follows total s (events p cs)
  unfolding events
  events_follow s p [] a = tt
  events_follow s p (c ∷ cs) a =
      follow s p (step p c).0 (step p c).2 (events (step p c).0 cs) a (step-Moves s p c a)
        (λ t b. events_follow t (step p c).0 cs b)

-- Whatever calls are made, in whatever order and with whatever frames, the observer sees a
-- beginning of one sequence: the acceptance, the start, then for each frame of the take in turn its
-- input and its completion, and the end after the last frame. Nothing is repeated, left out or
-- told too early.
pub observer_sees_sequence :
    (has_observer : Bool) (total : ℕ) (cs : List Call)
    → total < u32_mod
    → Follows total requested (events (new has_observer total) cs)
unfolding new
observer_sees_sequence has_observer total cs h =
    events_follow total h requested (new has_observer total) cs (ground arith)
