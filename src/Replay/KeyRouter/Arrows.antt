-- ===== src/Replay/KeyRouter/Arrows.antt =====
-- The two arrows held together (src/replay_inspection/key_router.cpp).
use ayther_runtime.Prelude.{
  ◌≡◌, ◌⊎◌, inl, inr, Bool, true, false, ◌||◌, some, List, [], ◌∷◌, arith, All, All-emit, ◌&&◌,
}
use ayther_runtime.Replay.KeyRouter.{
  Key, KeyAction, space, KeyRouter, Input, key_downs, key_ups, focuses, actions, step, key_down,
  key_up, focus,
}

abbrev pub is_arrow : KeyAction → Bool
is_arrow KeyAction.left = true
is_arrow KeyAction.right = true
is_arrow a = false

abbrev pub arrow_held : KeyRouter → Bool
arrow_held r = r.pressed Key.left || r.pressed Key.right

abbrev pub both_held : KeyRouter → Bool
both_held r = r.pressed Key.left && r.pressed Key.right

-- After each of the inputs at least one arrow is still held.
abbrev pub ArrowStaysHeld : KeyRouter → List Input → Type 0
ArrowStaysHeld r [] = Unit
ArrowStaysHeld r (e ∷ es) = (arrow_held (step r e).0 ≡ true) × ArrowStaysHeld (step r e).0 es

key_down_locked :
    (r : KeyRouter) (key : Key) (repeat captured : Bool) (a : KeyAction)
    → (r.arrows_locked ≡ true) ⊎ (both_held (key_down r key repeat captured).0 ≡ true)
    → (key_down r key repeat captured).1 ≡ some a
    → is_arrow a ≡ false
unfolding key_down
key_down_locked r space repeat captured a h e = ground arith
key_down_locked r _ repeat captured a h e = ground arith

-- An input after which both arrows are held, or that finds them locked, moves no arrow.
step_locked_silent :
    (r : KeyRouter) (e : Input) (a : KeyAction)
    → (r.arrows_locked ≡ true) ⊎ (both_held (step r e).0 ≡ true)
    → (step r e).1 ≡ some a
    → is_arrow a ≡ false
unfolding step
step_locked_silent r (key_downs key repeat captured) a h e =
    key_down_locked r key repeat captured a h e
step_locked_silent r (key_ups key) a h e = cc
step_locked_silent r (focuses value) a h e = cc

-- The lock holds until no arrow is held any more.
step_keeps_lock :
    (r : KeyRouter) (e : Input)
    → r.arrows_locked ≡ true
    → arrow_held (step r e).0 ≡ true
    → (step r e).0.arrows_locked ≡ true
unfolding step key_down key_up focus
step_keeps_lock r (key_downs space repeat captured) h a = ground arith
step_keeps_lock r (key_downs _ repeat captured) h a = ground arith
step_keeps_lock r (key_ups space) h a = ground arith
step_keeps_lock r (key_ups _) h a = ground arith
step_keeps_lock r (focuses value) h a = h

actions_locked :
    (r : KeyRouter) (es : List Input)
    → r.arrows_locked ≡ true
    → ArrowStaysHeld r es
    → All (λ a. is_arrow a ≡ false) (actions r es)
unfolding actions
actions_locked r [] h s = tt
actions_locked r (e ∷ es) h s =
    All-emit _ (step r e).1 _ (λ a. step_locked_silent r e a (inl h))
      (actions_locked (step r e).0 es (step_keeps_lock r e h s.0) s.1)

both_after :
    (r : KeyRouter)
    → r.pressed Key.left ≡ true
    → r.pressed Key.right ≡ false
    → both_held (key_down r Key.right false false).0 ≡ true
unfolding key_down
both_after r l h = ground arith

-- A fresh press of one arrow while the other is held, with the window in focus, locks them.
opposite_locks :
    (r : KeyRouter)
    → r.pressed Key.left ≡ true
    → r.pressed Key.right ≡ false
    → r.focused ≡ true
    → r.blocked Key.right ≡ false
    → (key_down r Key.right false false).0.arrows_locked ≡ true
unfolding key_down
opposite_locks r l h f b = ground arith

-- A fresh, uncaptured press of the right arrow, with the window in focus and the left arrow held,
-- moves nothing, and then no sequence of inputs moves an arrow as long as at least one arrow stays
-- held after each input.
pub arrows_locked_until_released :
    (r : KeyRouter) (es : List Input)
    → r.pressed Key.left ≡ true
    → r.pressed Key.right ≡ false
    → r.focused ≡ true
    → r.blocked Key.right ≡ false
    → ArrowStaysHeld (key_down r Key.right false false).0 es
    → All (λ a. is_arrow a ≡ false) (actions r (key_downs Key.right false false ∷ es))
unfolding actions step
arrows_locked_until_released r es l h f b s =
    All-emit _ (key_down r Key.right false false).1 _
      (λ a. key_down_locked r Key.right false false a (inr (both_after r l h)))
      (actions_locked (key_down r Key.right false false).0 es (opposite_locks r l h f b) s)

-- In every state reached from the initial one the lock means that an arrow is held.
abbrev pub LockHeld : KeyRouter → Type 0
LockHeld r = r.arrows_locked ≡ true → arrow_held r ≡ true

pub step-LockHeld : (r : KeyRouter) (e : Input) → LockHeld r → LockHeld (step r e).0
unfolding step key_down key_up focus
step-LockHeld r (key_downs space repeat captured) h = ground arith
step-LockHeld r (key_downs _ repeat captured) h = ground arith
step-LockHeld r (key_ups space) h = ground arith
step-LockHeld r (key_ups _) h = ground arith
step-LockHeld r (focuses value) h = h
