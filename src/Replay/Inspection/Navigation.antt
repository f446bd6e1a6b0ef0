-- ===== src/Replay/Inspection/Navigation.antt =====
-- Where the arrows lead, what I changes, and what a cancellation ends
-- (src/replay_inspection/inspection_state.cpp).
use ayther_runtime.Prelude.{
  ◌+◌, ◌<◌, ◌≡◌, ◌≢◌, refl, ◌⊎◌, Option, List, [], ◌∷◌, arith, All, All-append,
}
use ayther_runtime.Replay.KeyRouter.{KeyAction}
use ayther_runtime.Replay.Controller.{
  InspectionPhase, playing, paused, closing, Controller, Command, recover_frame, close,
  FrameActivity, position_or_zero,
}
use ayther_runtime.Replay.Inspection.{
  run, Input, prepares, slots, recovers, cancels, keys, completes, finishes, interrupts, step,
  orders, prepared, key, key_phase, key_info, take_slot_reached, presentation_recovered, cancel,
  frame_completed, recovery_finished, presentation_interrupted,
}
use ayther_runtime.Replay.Inspection.Invariant.{Inv}

-- An order to recover a frame is for a frame of the take that is one away from the current one.
abbrev pub IsNeighbour : Controller → Command → Type 0
IsNeighbour c o =
    (o.kind ≢ recover_frame)
    ⊎ ((o.frame < c.frames)
        × ((o.frame + 1 ≡ position_or_zero c) ⊎ (o.frame ≡ position_or_zero c + 1)))

key_phase-IsNeighbour :
    (p : InspectionPhase) (a : KeyAction) (y : FrameActivity) (c : Controller)
    → Inv c
    → All (IsNeighbour c) (key_phase p a y c).1
unfolding key_phase
key_phase-IsNeighbour paused KeyAction.toggle y c v = ground arith
key_phase-IsNeighbour paused KeyAction.left y c v = ground arith
key_phase-IsNeighbour paused KeyAction.right y c v = ground arith
key_phase-IsNeighbour paused KeyAction.info y c v = tt
key_phase-IsNeighbour playing a y c v = ground arith
key_phase-IsNeighbour _ a y c v = ground arith

-- A cancelled traversal answers nothing but another cancellation, and never leaves `closing`.
step_closing :
    (c : Controller) (e : Input)
    → c.phase ≡ closing
    → let (c', o) = step c e in (c'.phase ≡ closing) × All (λ x. x.kind ≡ close) o
unfolding step prepared take_slot_reached presentation_recovered cancel recovery_finished
    presentation_interrupted frame_completed key
step_closing c prepares e = ground arith
step_closing c slots e = ground arith
step_closing c recovers e = ground arith
step_closing c cancels e = ground arith
step_closing c (keys a y) e = ground arith
step_closing c (completes k) e = ground arith
step_closing c (finishes outcome) e = ground arith
step_closing c (interrupts cause) e = ground arith

key-IsNeighbour :
    (c : Controller) (a : KeyAction) (y : FrameActivity) → Inv c → All (IsNeighbour c) (key c a y).1
unfolding key key_info
key-IsNeighbour c a y v = ground (arith, key_phase-IsNeighbour c.phase a y c v)

-- In every state that satisfies the invariant, whatever happens, an order to recover a frame is
-- for a frame of the take, directly before or directly after the current one.
pub recover_orders-IsNeighbour :
    (c : Controller) (e : Input) → Inv c → All (IsNeighbour c) (step c e).1
unfolding step prepared take_slot_reached presentation_recovered cancel recovery_finished
    presentation_interrupted frame_completed
recover_orders-IsNeighbour c prepares v = ground arith
recover_orders-IsNeighbour c slots v = ground arith
recover_orders-IsNeighbour c recovers v = ground arith
recover_orders-IsNeighbour c cancels v = ground arith
recover_orders-IsNeighbour c (keys a y) v = key-IsNeighbour c a y v
recover_orders-IsNeighbour c (completes k) v = ground arith
recover_orders-IsNeighbour c (finishes outcome) v = ground arith
recover_orders-IsNeighbour c (interrupts cause) v = ground arith

orders_closing :
    (c : Controller) (es : List Input)
    → c.phase ≡ closing
    → ((run c es).phase ≡ closing) × All (λ x. x.kind ≡ close) (orders c es)
unfolding orders run
orders_closing c [] h = (h, tt)
orders_closing c (e ∷ es) h =
    let (still, only) = step_closing c e h in
    let (later, rest) = orders_closing (step c e).0 es still in
    (later, All-append (λ x. x.kind ≡ close) (step c e).1 (orders (step c e).0 es) only rest)

-- A cancellation is attended in every state: it leaves no target and gives the order to close, and
-- after it no sequence of inputs leaves `closing` or gives any order but to close.
pub cancel_ends :
    (c : Controller) (es : List Input)
    → ((step c cancels).0.target ≡ Option.none)
      × ((run c (cancels ∷ es)).phase ≡ closing)
      × ((orders c (cancels ∷ es)) ≢ [])
      × All (λ x. x.kind ≡ close) (orders c (cancels ∷ es))
unfolding orders run step cancel
cancel_ends c es =
    let (later, only) = orders_closing (cancel c).0 es refl in
    (refl, later, (λ e. cc), (refl, only))
