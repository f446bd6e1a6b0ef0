-- ===== src/AudioQa/ReplayLoop.antt =====
-- tools/audio_qa/recording_replay_loop.h and recording_replay_loop.cpp: the replay of a take, frame by
-- frame, after its initial state was acknowledged. The two engine operations of a frame are
-- parameters: what they answer for a frame is an argument of the step, and the step tells which of
-- them it called. The loop has its publication, its inputs and its progress in one record, since it
-- alone moves them.
pub mod Outcome
pub mod Frames
pub mod Success
pub mod Completion
mod Examples
use Prim.Native.String.{String}
use ayther_runtime.Prelude.{
  ℕ, suc, Bool, true, false, not, ◌&&◌, ◌||◌, Option, some, List, [], ◌∷◌, ◌++◌, ◌==◌,
  if◌then◌else◌,
}
use ayther_runtime.Prelude.Word.{add_u32}
use ayther_runtime.AudioQa.Publication.{InitialStatePublication, input_permitted, next_input}
use ayther_runtime.AudioQa.Recording.Input.{RecordingFrameInput, RecordingInputSource}
use ayther_runtime.AudioQa.Progress.{
  Publisher, publish_start, publish_input, publish_frame, publish_finish, is_started, State,
  finished,
}

pub record ReplayFrameOperationResult : Type 0 where
  pub succeeded : Bool
  pub engine_frame : ℕ
  pub code : String
  pub detail : String

pub data ReplayFrameError : Type 0 where
  none initial_state_not_acknowledged operations_unavailable invalid_input_position :
      ReplayFrameError
  input_exhausted set_input_failed step_failed loop_failed progress_failed : ReplayFrameError

pub record ReplayFrameResult : Type 0 where
  pub error : ReplayFrameError
  pub input : Option RecordingFrameInput
  pub engine_frame : ℕ
  pub operation_code : String
  pub operation_detail : String

-- The engine's operations, which are there or not, and what they answer at this frame.
pub record ReplayFrameOperations : Type 0 where
  pub available : Bool
  pub set_input : RecordingFrameInput → ReplayFrameOperationResult
  pub step : ReplayFrameOperationResult

-- A call of an engine operation.
pub data EngineCall : Type 0 where
  sets : RecordingFrameInput → EngineCall
  steps : EngineCall

pub record RecordingReplayLoop : Type 0 where
  pub publication : InitialStatePublication
  pub inputs : RecordingInputSource
  pub progress : Option Publisher
  pub frames_completed : ℕ
  pub failed : Bool

-- What `execute_next` leaves: the loop, its result and the engine calls it made.
pub record Execution : Type 0 where
  pub loop : RecordingReplayLoop
  pub result : ReplayFrameResult
  pub calls : List EngineCall

abbrev pub is_finished : State → Bool
is_finished finished = true
is_finished s = false

-- `progress_ != nullptr && !progress_->started() && !progress_->publish_start()` and its like: the
-- progress after the call, and whether the loop may go on. `started()` stays true after the end.
pub start_progress : Option Publisher → Option Publisher × Bool
start_progress Option.none = (Option.none, true)
start_progress (some p) =
    let started = publish_start p in
    if is_started p.state || is_finished p.state
    then (some p, true)
    else (some started.0, started.1)

pub finish_progress : Option Publisher → Option Publisher × Bool
finish_progress Option.none = (Option.none, true)
finish_progress (some p) =
    let ended = publish_finish p in
    if is_finished p.state then (some p, true) else (some ended.0, ended.1)

pub input_progress : Option Publisher → ℕ → Option Publisher × Bool
input_progress Option.none frame = (Option.none, true)
input_progress (some p) frame = let told = publish_input p frame in (some told.0, told.1)

pub frame_progress : Option Publisher → ℕ → ℕ → Option Publisher × Bool
frame_progress Option.none frame engine_frame = (Option.none, true)
frame_progress (some p) frame engine_frame =
    let told = publish_frame p frame engine_frame in (some told.0, told.1)

abbrev pub failure :
    ReplayFrameError → Option RecordingFrameInput → ℕ → String → String → ReplayFrameResult
failure error input engine_frame code detail = record {
  error = error;
  input = input;
  engine_frame = engine_frame;
  operation_code = code;
  operation_detail = detail;
}

-- `failed_ = true` and the result.
abbrev pub fails : RecordingReplayLoop → ReplayFrameResult → List EngineCall → Execution
fails loop result calls = record {
  loop = record loop { failed = true };
  result = result;
  calls = calls;
}

abbrev pub goes_on : RecordingReplayLoop → ReplayFrameResult → List EngineCall → Execution
goes_on loop result calls = record { loop = loop; result = result; calls = calls }

-- After the step of the engine: the frame is counted and told.
pub complete_frame :
    RecordingReplayLoop → RecordingFrameInput → ReplayFrameOperationResult → Execution
complete_frame loop input stepped =
    let told = frame_progress loop.progress input.frame stepped.engine_frame in
    let counted : RecordingReplayLoop = record loop {
      progress = told.0;
      frames_completed = add_u32 loop.frames_completed 1;
    } in
    if not told.1
    then fails counted
        (failure progress_failed (some input) stepped.engine_frame
          "frame_progress_publication_failed" "")
        (sets input ∷ steps ∷ [])
    else goes_on counted
        (failure ReplayFrameError.none (some input) stepped.engine_frame stepped.code
          stepped.detail)
        (sets input ∷ steps ∷ [])

-- The two operations of the engine.
pub operate : RecordingReplayLoop → ReplayFrameOperations → RecordingFrameInput → Execution
unfolding complete_frame
operate loop operations input =
    let set = operations.set_input input in
    let stepped = operations.step in
    if not set.succeeded
    then fails loop (failure set_input_failed (some input) set.engine_frame set.code set.detail)
        (sets input ∷ [])
    else if not stepped.succeeded
    then fails loop
        (failure step_failed (some input) stepped.engine_frame stepped.code stepped.detail)
        (sets input ∷ steps ∷ [])
    else complete_frame loop input stepped

-- With an input: its frame is checked and told before the engine has it.
pub run_frame : RecordingReplayLoop → ReplayFrameOperations → RecordingFrameInput → Execution
unfolding operate
run_frame loop operations input =
    let told = input_progress loop.progress input.frame in
    if not (input.frame == loop.frames_completed)
    then fails loop (failure invalid_input_position (some input) 0 "input_frame_mismatch" "") []
    else if not told.1
    then fails (record loop { progress = told.0 })
        (failure progress_failed (some input) 0 "input_progress_publication_failed" "") []
    else operate (record loop { progress = told.0 }) operations input

-- With no further input: the end is told once.
pub run_out : RecordingReplayLoop → Execution
run_out loop =
    let told = finish_progress loop.progress in
    if not told.1
    then fails (record loop { progress = told.0 })
        (failure progress_failed Option.none 0 "replay_finish_publication_failed" "") []
    else goes_on (record loop { progress = told.0 })
        (failure input_exhausted Option.none 0 "input_exhausted" "") []

pub after_input :
    RecordingReplayLoop
    → ReplayFrameOperations
    → RecordingInputSource × Option RecordingFrameInput
    → Execution
unfolding run_frame run_out
after_input loop operations (inputs, Option.none) = run_out (record loop { inputs = inputs })
after_input loop operations (inputs, some input) =
    run_frame (record loop { inputs = inputs }) operations input

pub execute_next : RecordingReplayLoop → ReplayFrameOperations → Execution
unfolding after_input
execute_next loop operations =
    let started = start_progress loop.progress in
    if loop.failed
    then goes_on loop
        (failure loop_failed Option.none 0 "loop_failed" "a previous frame operation failed") []
    else if not (input_permitted loop.publication)
    then goes_on loop
        (failure initial_state_not_acknowledged Option.none 0 "initial_state_not_acknowledged" "")
        []
    else if not operations.available
    then fails loop (failure operations_unavailable Option.none 0 "frame_operations_unavailable" "")
        []
    else if not (loop.inputs.cursor == loop.frames_completed)
    then fails loop (failure invalid_input_position Option.none 0 "input_position_mismatch" "") []
    else if not started.1
    then fails (record loop { progress = started.0 })
        (failure progress_failed Option.none 0 "replay_start_publication_failed" "") []
    else after_input (record loop { progress = started.0 }) operations
        (next_input loop.publication loop.inputs)

pub new : InitialStatePublication → RecordingInputSource → Option Publisher → RecordingReplayLoop
new publication inputs progress = record {
  publication = publication;
  inputs = inputs;
  progress = progress;
  frames_completed = 0;
  failed = false;
}

-- Executions one after the other, with the answers of the engine at each.
pub run : RecordingReplayLoop → List ReplayFrameOperations → RecordingReplayLoop
run loop [] = loop
run loop (o ∷ os) = run (execute_next loop o).loop os

pub calls : RecordingReplayLoop → List ReplayFrameOperations → List EngineCall
calls loop [] = []
calls loop (o ∷ os) = let e = execute_next loop o in let later = calls e.loop os in e.calls ++ later
