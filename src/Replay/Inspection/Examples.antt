-- ===== src/Replay/Inspection/Examples.antt =====
-- An inspection of a take of three frames (src/replay_inspection/inspection_state.cpp).
use ayther_runtime.Prelude.{◌≤◌, true, false, Option, List, [], ◌∷◌, All, arith, if◌then◌else◌}
use ayther_runtime.Replay.KeyRouter.{KeyAction}
use ayther_runtime.Replay.Controller.{Controller, new, FrameActivity, RecoveryOutcome, paused}
use ayther_runtime.Replay.Inspection.{
  Input, prepares, slots, recovers, keys, completes, finishes, interrupts, run, orders,
}
use ayther_runtime.Replay.Inspection.Invariant.{Inv, IsProper, controller-Inv}
use ayther_runtime.Replay.Inspection.Orders.{
  advances_once, confirms_once, is_advance, is_confirm, count,
}

-- Two frames, a pause, a step back that succeeds, an interruption and its end, and a resume.
abbrev inputs : List Input
inputs =
    prepares
    ∷ completes 0
    ∷ completes 1
    ∷ keys KeyAction.toggle FrameActivity.between_frames
    ∷ keys KeyAction.left FrameActivity.between_frames
    ∷ finishes RecoveryOutcome.presented
    ∷ interrupts "window_minimized"
    ∷ recovers
    ∷ keys KeyAction.toggle FrameActivity.between_frames
    ∷ completes 2
    ∷ slots
    ∷ []

inputs-IsProper : All (IsProper 3) inputs
inputs-IsProper =
    (tt, (omega arith, (omega arith, (tt, (tt, (tt, (tt, (tt, (tt, (omega arith, (tt, tt)))))))))))

controller-Inv_example : Inv (run (new 3 false) inputs)
controller-Inv_example = controller-Inv 3 false inputs (omega arith) inputs-IsProper

advances_once_example : count is_advance (orders (new 3 false) inputs) ≤ (if false then 0 else 1)
advances_once_example = advances_once 3 false inputs (omega arith) inputs-IsProper

confirms_once_example : count is_confirm (orders (new 3 true) inputs) ≤ (if true then 1 else 0)
confirms_once_example = confirms_once 3 true inputs (omega arith) inputs-IsProper

-- Paused at the second of the three frames.
abbrev second : Controller
second = record (new 3 false) { phase = paused; position = Option.some 1 }

second-Inv : Inv second
unfolding new
second-Inv = ground arith
