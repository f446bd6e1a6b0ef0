-- ===== src/Replay/Inspection/Invariant.antt =====
-- What holds of the inspection controller between two inputs
-- (src/replay_inspection/inspection_state.cpp).
use ayther_runtime.Prelude.{
  ℕ, ◌<◌, ◌≡◌, refl, Bool, true, false, Option, List, [], ◌∷◌, arith, All, is_some,
}
use ayther_runtime.Prelude.Word.{u32_mod}
use ayther_runtime.Replay.KeyRouter.{KeyAction}
use ayther_runtime.Replay.Controller.{
  InspectionPhase, preparing, playing, pausing, paused, recovering, Controller, new, FrameActivity,
}
use ayther_runtime.Replay.Inspection.{
  Input, prepares, slots, recovers, cancels, keys, completes, finishes, interrupts, step, run,
  prepared, key, key_phase, key_info, take_slot_reached, presentation_recovered, cancel,
  frame_completed, recovery_finished, presentation_interrupted,
}

abbrev pub InTake : ℕ → Option ℕ → Type 0
InTake frames Option.none = Unit {0}
InTake frames (Option.some k) = k < frames

abbrev pub is_recovering : InspectionPhase → Bool
is_recovering recovering = true
is_recovering p = false

-- The phases in which a take that has ended can stand: not preparing, and playing or pausing only
-- while its end is `pending`.
abbrev pub settled : InspectionPhase → Bool → Bool
settled preparing pending = false
settled playing pending = pending
settled pausing pending = pending
settled p pending = true

pub record Inv (c : Controller) : Type 0 where
  pub frames_fit : c.frames < u32_mod
  pub position_in : InTake c.frames c.position
  pub target_in : InTake c.frames c.target
  pub target_recovers : is_some c.target ≡ is_recovering c.phase
  pub pending_ended : c.take_end_pending ≡ true → (c.last_take ≡ false) × (c.ended_naturally ≡ true)
  pub ended_settled : c.ended_naturally ≡ true → settled c.phase c.take_end_pending ≡ true

-- What the adapter promises: a frame that completes is one of the take.
abbrev pub IsProper : ℕ → Input → Type 0
IsProper frames (completes frame) = frame < frames
IsProper frames e = Unit {0}

pub new-Inv : (frames : ℕ) (last_take : Bool) → frames < u32_mod → Inv (new frames last_take)
unfolding new
new-Inv frames last_take h = ground arith

key_phase-Inv :
    (p : InspectionPhase) (a : KeyAction) (y : FrameActivity) (c : Controller)
    → c.phase ≡ p
    → Inv c
    → Inv (key_phase p a y c).0
unfolding key_phase
key_phase-Inv preparing a y c e v = v
key_phase-Inv paused KeyAction.toggle y c e v = ground arith
key_phase-Inv paused KeyAction.left y c e v = ground arith
key_phase-Inv paused KeyAction.right y c e v = ground arith
key_phase-Inv paused KeyAction.info y c e v = v
key_phase-Inv _ a y c e v = ground arith

key_info-Inv : (p : InspectionPhase) (c : Controller) → Inv c → Inv (key_info p c).0
unfolding key_info
key_info-Inv preparing c v = v
key_info-Inv _ c v = ground arith

key-Inv : (c : Controller) (a : KeyAction) (y : FrameActivity) → Inv c → Inv (key c a y).0
unfolding key
key-Inv c a y v = ground (arith, key_info-Inv c.phase c, key_phase-Inv c.phase a y c refl)

frame_completed-Inv : (c : Controller) (k : ℕ) → k < c.frames → Inv c → Inv (frame_completed c k).0
unfolding frame_completed
frame_completed-Inv c k h v = ground arith

pub step-Inv : (c : Controller) (e : Input) → IsProper c.frames e → Inv c → Inv (step c e).0
unfolding step prepared take_slot_reached presentation_recovered cancel recovery_finished
    presentation_interrupted
step-Inv c prepares h v = ground arith
step-Inv c slots h v = ground arith
step-Inv c recovers h v = ground arith
step-Inv c cancels h v = ground arith
step-Inv c (keys a y) h v = key-Inv c a y v
step-Inv c (completes k) h v = frame_completed-Inv c k h v
step-Inv c (finishes outcome) h v = ground arith
step-Inv c (interrupts cause) h v = ground arith

-- The number of frames and the place in the campaign never change.
key_phase_fixed :
    (p : InspectionPhase) (a : KeyAction) (y : FrameActivity) (c : Controller)
    → let c' = (key_phase p a y c).0 in (c'.frames ≡ c.frames) × (c'.last_take ≡ c.last_take)
unfolding key_phase
key_phase_fixed paused KeyAction.toggle y c = ground arith
key_phase_fixed paused _ y c = ground arith
key_phase_fixed _ a y c = ground arith

key_fixed :
    (c : Controller) (a : KeyAction) (y : FrameActivity)
    → let c' = (key c a y).0 in (c'.frames ≡ c.frames) × (c'.last_take ≡ c.last_take)
unfolding key key_info
key_fixed c a y = ground (arith, key_phase_fixed c.phase a y c)

pub step_fixed :
    (c : Controller) (e : Input)
    → let c' = (step c e).0 in (c'.frames ≡ c.frames) × (c'.last_take ≡ c.last_take)
unfolding step prepared take_slot_reached presentation_recovered cancel recovery_finished
    presentation_interrupted frame_completed
step_fixed c (keys a y) = key_fixed c a y
step_fixed c prepares = ground arith
step_fixed c slots = ground arith
step_fixed c recovers = ground arith
step_fixed c cancels = ground arith
step_fixed c (completes k) = ground arith
step_fixed c (finishes outcome) = ground arith
step_fixed c (interrupts cause) = ground arith

run_from-Inv :
    (c : Controller) (es : List Input) → All (IsProper c.frames) es → Inv c → Inv (run c es)
unfolding run
run_from-Inv c [] h v = v
run_from-Inv c (e ∷ es) h v =
    run_from-Inv (step c e).0 es (rw (step_fixed c e).0 h.1) (step-Inv c e h.0 v)

-- After any inputs in which only frames of the take complete, the position and the target are
-- frames of the take, there is a target exactly while recovering, a take whose end is pending is
-- an intermediate one that has ended, and once a take has ended the phase is not preparing, and it
-- is playing or pausing only while that end is pending.
pub controller-Inv :
    (frames : ℕ) (last_take : Bool) (es : List Input)
    → frames < u32_mod
    → All (IsProper frames) es
    → Inv (run (new frames last_take) es)
controller-Inv frames last_take es f h =
    run_from-Inv (new frames last_take) es (unfold new in h) (new-Inv frames last_take f)
