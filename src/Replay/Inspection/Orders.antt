-- ===== src/Replay/Inspection/Orders.antt =====
-- The orders that the inspection controller gives over a whole traversal
-- (src/replay_inspection/inspection_state.cpp).
use ayther_runtime.Prelude.{
  ℕ, ◌+◌, ◌≤◌, ◌<◌, ◌≡◌, Bool, true, false, not, ◌||◌, List, [], ◌∷◌, ◌++◌, arith, All,
  if◌then◌else◌,
}
use ayther_runtime.Prelude.Word.{u32_mod}
use ayther_runtime.Replay.KeyRouter.{KeyAction}
use ayther_runtime.Replay.Controller.{
  InspectionPhase, paused, Controller, CommandKind, Commands, advance_take, confirm_linear_result,
  new, FrameActivity,
}
use ayther_runtime.Replay.Inspection.{
  Input, prepares, slots, recovers, cancels, keys, completes, finishes, interrupts, step, orders,
  prepared, key, key_phase, key_info, take_slot_reached, presentation_recovered, cancel,
  frame_completed, recovery_finished, presentation_interrupted, is_over,
}
use ayther_runtime.Replay.Inspection.Invariant.{Inv, IsProper, step-Inv, step_fixed, new-Inv}

abbrev pub is_advance : CommandKind → Bool
is_advance advance_take = true
is_advance k = false

abbrev pub is_confirm : CommandKind → Bool
is_confirm confirm_linear_result = true
is_confirm k = false

-- How many orders of a list are of the kind that a test selects.
abbrev pub count : (CommandKind → Bool) → Commands → ℕ
count test [] = 0
count test (x ∷ xs) = (if test x.kind then 1 else 0) + count test xs

count-append :
    (test : CommandKind → Bool) (xs ys : Commands)
    → count test (xs ++ ys) ≡ count test xs + count test ys
count-append test [] ys = omega arith
count-append test (x ∷ xs) ys = omega (arith, count-append test xs ys)

-- How often a controller may still give way to the next take.
abbrev advances_left : Controller → ℕ
advances_left c = if c.last_take || is_over c.phase then 0 else 1

key_phase_advances :
    (p : InspectionPhase) (a : KeyAction) (y : FrameActivity) (c : Controller)
    → c.phase ≡ p
    → let (c', o) = key_phase p a y c in count is_advance o + advances_left c' ≤ advances_left c
unfolding key_phase
key_phase_advances paused KeyAction.toggle y c e = ground arith
key_phase_advances paused _ y c e = ground arith
key_phase_advances _ a y c e = ground arith

key_advances :
    (c : Controller) (a : KeyAction) (y : FrameActivity)
    → let (c', o) = key c a y in count is_advance o + advances_left c' ≤ advances_left c
unfolding key key_info
key_advances c a y = ground (arith, key_phase_advances c.phase a y c)

step_advances :
    (c : Controller) (e : Input)
    → Inv c
    → let (c', o) = step c e in count is_advance o + advances_left c' ≤ advances_left c
unfolding step prepared take_slot_reached presentation_recovered cancel recovery_finished
    presentation_interrupted frame_completed
step_advances c prepares v = ground arith
step_advances c slots v = ground arith
step_advances c recovers v = ground arith
step_advances c cancels v = ground arith
step_advances c (keys a y) v = key_advances c a y
step_advances c (completes k) v = ground arith
step_advances c (finishes outcome) v = ground arith
step_advances c (interrupts cause) v = ground arith

orders_advances :
    (c : Controller) (es : List Input)
    → All (IsProper c.frames) es
    → Inv c
    → count is_advance (orders c es) ≤ advances_left c
unfolding orders
orders_advances c [] h v = omega arith
orders_advances c (e ∷ es) h v =
    let c' = (step c e).0 in
    omega (
      arith,
      count-append is_advance (step c e).1 (orders c' es),
      step_advances c e v,
      orders_advances c' es (rw (step_fixed c e).0 h.1) (step-Inv c e h.0 v),
    )

start_advances :
    (frames : ℕ) (last_take : Bool)
    → advances_left (new frames last_take) ≡ (if last_take then 0 else 1)
unfolding new
start_advances frames last_take = ground arith

-- Over any inputs in which only frames of the take complete, the controller gives way to the next
-- take at most once, and the controller of the last take never does.
pub advances_once :
    (frames : ℕ) (last_take : Bool) (es : List Input)
    → frames < u32_mod
    → All (IsProper frames) es
    → count is_advance (orders (new frames last_take) es) ≤ (if last_take then 0 else 1)
advances_once frames last_take es f h =
    let bound =
      orders_advances (new frames last_take) es (unfold new in h) (new-Inv frames last_take f) in
    omega (arith, bound, start_advances frames last_take)

-- How often a controller may still confirm its linear result.
abbrev confirms_left : Controller → ℕ
confirms_left c = if not c.last_take || (c.ended_naturally || is_over c.phase) then 0 else 1

key_phase_confirms :
    (p : InspectionPhase) (a : KeyAction) (y : FrameActivity) (c : Controller)
    → c.phase ≡ p
    → let (c', o) = key_phase p a y c in count is_confirm o + confirms_left c' ≤ confirms_left c
unfolding key_phase
key_phase_confirms paused KeyAction.toggle y c e = ground arith
key_phase_confirms paused _ y c e = ground arith
key_phase_confirms _ a y c e = ground arith

key_confirms :
    (c : Controller) (a : KeyAction) (y : FrameActivity)
    → let (c', o) = key c a y in count is_confirm o + confirms_left c' ≤ confirms_left c
unfolding key key_info
key_confirms c a y = ground (arith, key_phase_confirms c.phase a y c)

step_confirms :
    (c : Controller) (e : Input)
    → Inv c
    → let (c', o) = step c e in count is_confirm o + confirms_left c' ≤ confirms_left c
unfolding step prepared take_slot_reached presentation_recovered cancel recovery_finished
    presentation_interrupted frame_completed
step_confirms c prepares v = ground arith
step_confirms c slots v = ground arith
step_confirms c recovers v = ground arith
step_confirms c cancels v = ground arith
step_confirms c (keys a y) v = key_confirms c a y
step_confirms c (completes k) v = ground arith
step_confirms c (finishes outcome) v = ground arith
step_confirms c (interrupts cause) v = ground arith

orders_confirms :
    (c : Controller) (es : List Input)
    → All (IsProper c.frames) es
    → Inv c
    → count is_confirm (orders c es) ≤ confirms_left c
unfolding orders
orders_confirms c [] h v = omega arith
orders_confirms c (e ∷ es) h v =
    let c' = (step c e).0 in
    omega (
      arith,
      count-append is_confirm (step c e).1 (orders c' es),
      step_confirms c e v,
      orders_confirms c' es (rw (step_fixed c e).0 h.1) (step-Inv c e h.0 v),
    )

start_confirms :
    (frames : ℕ) (last_take : Bool)
    → confirms_left (new frames last_take) ≡ (if last_take then 1 else 0)
unfolding new
start_confirms frames last_take = ground arith

-- Over any inputs in which only frames of the take complete, the linear result is confirmed at
-- most once, and only by the controller of the last take.
pub confirms_once :
    (frames : ℕ) (last_take : Bool) (es : List Input)
    → frames < u32_mod
    → All (IsProper frames) es
    → count is_confirm (orders (new frames last_take) es) ≤ (if last_take then 1 else 0)
confirms_once frames last_take es f h =
    let bound =
      orders_confirms (new frames last_take) es (unfold new in h) (new-Inv frames last_take f) in
    omega (arith, bound, start_confirms frames last_take)
