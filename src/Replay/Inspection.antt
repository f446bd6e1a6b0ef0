-- ===== src/Replay/Inspection.antt =====
-- src/replay_inspection/inspection_state.h and inspection_state.cpp, the class
-- `InspectionController`: each operation returns the new state and the orders for the adapter.
pub mod Invariant
pub mod Orders
pub mod Navigation
mod Examples
use Prim.Native.String.{String}
use ayther_runtime.Prelude.{
  ℕ, ◌-◌, Bool, true, false, not, ◌&&◌, ◌||◌, Option, List, [], ◌∷◌, ◌++◌, ltb, leb, ◌==◌,
  if◌then◌else◌, is_some, value_or,
}
use ayther_runtime.Prelude.Word.{add_u32, sub_u32}
use ayther_runtime.Replay.KeyRouter.{KeyAction}
use ayther_runtime.Replay.Controller.{
  InspectionPhase, preparing, playing, pausing, paused, recovering, closing, failed, CommandKind,
  present_frame, recover_frame, pause_audio, resume_audio, toggle_debug, inspection_event,
  confirm_linear_result, advance_take, finish_traversal, close, Notice, not_available, busy,
  recovery_failed, no_next_frame, Command, RecoveryOutcome, presented, failed_restored,
  failed_unrecoverable, FrameActivity, between_frames, producing, Commands, Controller, new,
  command, notify, event, position_or_zero, is_playing, take_end_waits,
}

prepared_at : InspectionPhase → Controller → Controller
prepared_at preparing c = record c { phase = playing }
prepared_at p c = c

unfoldable pub prepared : Controller → Controller × Commands
unfolding prepared_at
prepared c = (prepared_at c.phase c, [])

unfoldable pub pause_at : Controller → ℕ → Controller × Commands
pause_at c frame = (
  record c { phase = paused; position = Option.some frame },
  command present_frame frame ∷ command pause_audio frame ∷ event "pause" frame,
)

abbrev pub is_toggle : KeyAction → Bool
is_toggle KeyAction.toggle = true
is_toggle a = false

-- `Space` while paused.
toggle_paused : Controller → Controller × Commands
toggle_paused c =
    let frame = position_or_zero c in
    if ltb (add_u32 frame 1) c.frames && not c.ended_naturally
    then (
      record c { phase = playing },
      command resume_audio (add_u32 frame 1) ∷ event "resume" frame,
    )
    else if not c.last_take
    then (
      record c { phase = closing },
      event "advance_take" frame ++ (command advance_take frame ∷ []),
    )
    else (c, notify no_next_frame ∷ [])

-- An arrow while paused: `back` for ←.
move_paused : Controller → Bool → Controller × Commands
move_paused c back =
    let frame = position_or_zero c in
    let target = if back then sub_u32 frame 1 else add_u32 frame 1 in
    if (back && frame == 0) || (not back && leb c.frames (add_u32 frame 1)) then (c, []) else (
      record c { target = Option.some target; phase = recovering; inspected = true },
      command recover_frame target ∷ event (if back then "step_back" else "step_forward") target,
    )

key_paused : KeyAction → Controller → Controller × Commands
unfolding toggle_paused move_paused
key_paused KeyAction.toggle c = toggle_paused c
key_paused KeyAction.left c = move_paused c true
key_paused KeyAction.right c = move_paused c false
key_paused KeyAction.info c = (c, [])

is_between : FrameActivity → Bool
is_between between_frames = true
is_between producing = false

-- `Space` while playing: without a frame in progress the last completed one stays.
toggle_playing : Controller → FrameActivity → Controller × Commands
unfolding pause_at is_between
toggle_playing c activity = elim c.position [
  | Option.none ↦ (record c { phase = pausing }, [])
  | Option.some frame ↦
      if is_between activity then pause_at c frame else (record c { phase = pausing }, [])
]

-- The answer of a phase in which only `Space` is answered, by a notice.
abbrev answer : Controller → KeyAction → Notice → Controller × Commands
answer c action n = (c, if is_toggle action then notify n ∷ [] else [])

-- I: shown or hidden in every phase but the preparation; nothing else changes.
key_info : InspectionPhase → Controller → Controller × Commands
key_info preparing c = (c, [])
key_info p c = (
  record c { debug_visible = not c.debug_visible },
  command toggle_debug (position_or_zero c) ∷ [],
)

-- The `switch` of `key` on the phase, for the keys other than I.
key_phase : InspectionPhase → KeyAction → FrameActivity → Controller → Controller × Commands
unfolding toggle_playing key_paused
key_phase preparing action activity c = answer c action not_available
key_phase playing action activity c =
    if is_toggle action then toggle_playing c activity else (c, [])
key_phase pausing action activity c = answer c action not_available
key_phase recovering action activity c = (c, notify busy ∷ [])
key_phase InspectionPhase.interrupted action activity c = answer c action Notice.interrupted
key_phase paused action activity c = key_paused action c
key_phase closing action activity c = (c, [])
key_phase failed action activity c = (c, [])

abbrev pub is_over : InspectionPhase → Bool
is_over closing = true
is_over failed = true
is_over p = false

abbrev pub is_info : KeyAction → Bool
is_info KeyAction.info = true
is_info a = false

pub key : Controller → KeyAction → FrameActivity → Controller × Commands
key c action activity =
    if is_over c.phase
    then (c, [])
    else if is_info action
    then key_info c.phase c
    else key_phase c.phase action activity c

-- A frame that completes in `playing` or `pausing`; `pausing` says which.
complete : Controller → Bool → ℕ → Controller × Commands
unfolding pause_at
complete c pause_pending frame =
    let c' = record c { position = Option.some frame } in
    let ended = record c' { ended_naturally = true } in
    if ltb (add_u32 frame 1) c.frames
    then (if pause_pending then pause_at c' frame else (c', []))
    else if pause_pending
    then pause_at ended frame
    else if not c.last_take
    then (record ended { take_end_pending = true }, [])
    else (
      record ended { phase = paused },
      command confirm_linear_result frame
          ∷ command present_frame frame
          ∷ command pause_audio frame
          ∷ [],
    )

complete_at : InspectionPhase → Controller → ℕ → Controller × Commands
unfolding complete
complete_at playing c frame = complete c false frame
complete_at pausing c frame = complete c true frame
complete_at p c frame = (c, [])

unfoldable pub frame_completed : Controller → ℕ → Controller × Commands
unfolding complete_at
frame_completed c frame = complete_at c.phase c frame

-- `recovery_finished` once the phase and the target allow it.
finish_recovery : Controller → ℕ → RecoveryOutcome → Controller × Commands
finish_recovery c target presented = (
  record c { target = Option.none; phase = paused; position = Option.some target },
  command present_frame target ∷ [],
)
finish_recovery c target failed_restored = (
  record c { target = Option.none; phase = paused },
  notify recovery_failed ∷ command present_frame (position_or_zero c) ∷ [],
)
finish_recovery c target failed_unrecoverable = (
  record c { target = Option.none; phase = failed },
  command finish_traversal (position_or_zero c) ∷ [],
)

recovery_at : InspectionPhase → Option ℕ → Controller → RecoveryOutcome → Controller × Commands
unfolding finish_recovery
recovery_at recovering (Option.some target) c outcome = finish_recovery c target outcome
recovery_at p t c outcome = (c, [])

unfoldable pub recovery_finished : Controller → RecoveryOutcome → Controller × Commands
unfolding recovery_at
recovery_finished c outcome = recovery_at c.phase c.target c outcome

unfoldable pub presentation_interrupted : Controller → String → Controller × Commands
presentation_interrupted c cause = if is_over c.phase then (c, []) else (
  record c { phase = InspectionPhase.interrupted; target = Option.none; cause = cause },
  event "interrupted" (position_or_zero c),
)

recovered_at : InspectionPhase → Controller → Controller × Commands
recovered_at InspectionPhase.interrupted c = (
  record c { phase = paused },
  event "recovered" (position_or_zero c) ++ (command present_frame (position_or_zero c) ∷ []),
)
recovered_at p c = (c, [])

unfoldable pub presentation_recovered : Controller → Controller × Commands
unfolding recovered_at
presentation_recovered c = recovered_at c.phase c

unfoldable pub take_slot_reached : Controller → Controller × Commands
unfolding take_end_waits
take_slot_reached c =
    if take_end_waits c
    then (
      record c { take_end_pending = false; phase = closing },
      command advance_take (position_or_zero c) ∷ [],
    )
    else (c, [])

unfoldable pub cancel : Controller → Controller × Commands
cancel c =
    (record c { phase = closing; target = Option.none }, command close (position_or_zero c) ∷ [])

-- What the adapter can tell the controller.
pub data Input : Type 0 where
  prepares slots recovers cancels : Input
  keys : KeyAction → FrameActivity → Input
  completes : ℕ → Input
  finishes : RecoveryOutcome → Input
  interrupts : String → Input

pub step : Controller → Input → Controller × Commands
step c prepares = prepared c
step c slots = take_slot_reached c
step c recovers = presentation_recovered c
step c cancels = cancel c
step c (keys action activity) = key c action activity
step c (completes frame) = frame_completed c frame
step c (finishes outcome) = recovery_finished c outcome
step c (interrupts cause) = presentation_interrupted c cause

-- The state after a sequence of inputs, and all the orders given on the way.
pub run : Controller → List Input → Controller
run c [] = c
run c (e ∷ es) = run (step c e).0 es

pub orders : Controller → List Input → Commands
orders c [] = []
orders c (e ∷ es) = (step c e).1 ++ orders (step c e).0 es
