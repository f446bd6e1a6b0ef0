-- ===== src/AudioQa/Progress.antt =====
-- tools/audio_qa/replay_progress.h and replay_progress.cpp: what a replay tells of its progress.
-- An operation returns the new state, whether it was accepted, and the event it emitted, which the
-- source gives to its observer. That there is an observer is a parameter of the acceptance.
pub mod Trace
mod Examples
use ayther_runtime.Prelude.{
  ℕ, ◌+◌, Bool, true, false, not, ◌&&◌, ◌||◌, Option, none, some, List, [], ◌∷◌, emit, ltb, leb,
  ◌==◌, if◌then◌else◌,
}
use ayther_runtime.Prelude.Word.{add_u32}

pub data ReplayProgressKind : Type 0 where
  request_accepted replay_started input_consumed frame_completed replay_finished :
      ReplayProgressKind

pub record ReplayProgressEvent : Type 0 where
  pub kind : ReplayProgressKind
  pub total_inputs : ℕ
  pub inputs_consumed : ℕ
  pub frames_completed : ℕ
  pub recording_frame : ℕ
  pub engine_frame : ℕ

pub data State : Type 0 where
  pending accepted started finished : State

pub record Publisher : Type 0 where
  pub has_observer : Bool
  pub total_inputs : ℕ
  pub state : State
  pub inputs_consumed : ℕ
  pub frames_completed : ℕ
  pub last_engine_frame : ℕ

pub new : Bool → ℕ → Publisher
new has_observer total_inputs = record {
  has_observer = has_observer;
  total_inputs = total_inputs;
  state = pending;
  inputs_consumed = 0;
  frames_completed = 0;
  last_engine_frame = 0;
}

abbrev pub is_pending : State → Bool
is_pending pending = true
is_pending s = false

abbrev pub is_accepted : State → Bool
is_accepted accepted = true
is_accepted s = false

abbrev pub is_started : State → Bool
is_started started = true
is_started s = false

-- `emit`, on the state that the operation has already changed.
unfoldable pub event_of : Publisher → ReplayProgressKind → ℕ → ℕ → ReplayProgressEvent
event_of p kind recording_frame engine_frame = record {
  kind = kind;
  total_inputs = p.total_inputs;
  inputs_consumed = p.inputs_consumed;
  frames_completed = p.frames_completed;
  recording_frame = recording_frame;
  engine_frame = engine_frame;
}

unfoldable pub publish_acceptance : Publisher → Publisher × Bool × Option ReplayProgressEvent
unfolding event_of
publish_acceptance p =
    let p' = record p { state = accepted } in
    if not p.has_observer || (p.total_inputs == 0 || not (is_pending p.state))
    then (p, false, none)
    else (p', true, some (event_of p' request_accepted 0 0))

unfoldable pub publish_start : Publisher → Publisher × Bool × Option ReplayProgressEvent
unfolding event_of
publish_start p =
    let p' = record p { state = started } in
    if not (is_accepted p.state)
    then (p, false, none)
    else (p', true, some (event_of p' replay_started 0 0))

unfoldable pub publish_input : Publisher → ℕ → Publisher × Bool × Option ReplayProgressEvent
unfolding event_of
publish_input p recording_frame =
    let p' = record p { inputs_consumed = add_u32 p.inputs_consumed 1 } in
    if not (is_started p.state)
      || (not (recording_frame == p.inputs_consumed)
          || (leb p.total_inputs p.inputs_consumed
              || not (p.inputs_consumed == p.frames_completed)))
    then (p, false, none)
    else (p', true, some (event_of p' input_consumed recording_frame 0))

unfoldable pub publish_frame : Publisher → ℕ → ℕ → Publisher × Bool × Option ReplayProgressEvent
unfolding event_of
publish_frame p recording_frame engine_frame =
    let p' = record p {
      frames_completed = add_u32 p.frames_completed 1;
      last_engine_frame = engine_frame;
    } in
    if not (is_started p.state)
      || (not (recording_frame == p.frames_completed)
          || not (p.inputs_consumed == add_u32 p.frames_completed 1))
    then (p, false, none)
    else (p', true, some (event_of p' frame_completed recording_frame engine_frame))

unfoldable pub publish_finish : Publisher → Publisher × Bool × Option ReplayProgressEvent
unfolding event_of
publish_finish p =
    let p' = record p { state = finished } in
    if not (is_started p.state)
      || (not (p.inputs_consumed == p.total_inputs) || not (p.frames_completed == p.total_inputs))
    then (p, false, none)
    else (p', true, some (event_of p' replay_finished p.total_inputs 0))

pub data Call : Type 0 where
  accepts starts finishes : Call
  consumes : ℕ → Call
  completes : ℕ → ℕ → Call

pub step : Publisher → Call → Publisher × Bool × Option ReplayProgressEvent
unfolding publish_acceptance publish_start publish_input publish_frame publish_finish
step p accepts = publish_acceptance p
step p starts = publish_start p
step p finishes = publish_finish p
step p (consumes recording_frame) = publish_input p recording_frame
step p (completes recording_frame engine_frame) = publish_frame p recording_frame engine_frame

-- The events that a sequence of calls gives the observer.
pub events : Publisher → List Call → List ReplayProgressEvent
events p [] = []
events p (c ∷ cs) = emit (step p c).2 (events (step p c).0 cs)
