-- ===== src/Replay/KeyRouter/Press.antt =====
-- What a physical press of a key can cause, over any sequence of window inputs
-- (src/replay_inspection/key_router.cpp).
use ayther_runtime.Prelude.{
  ◌≡◌, ◌≢◌, sym, ap, ◌⊎◌, Bool, true, false, some, List, [], ◌∷◌, arith, All, All-emit, inl, inr,
}
use ayther_runtime.Replay.KeyRouter.{
  Key, KeyAction, space, KeyRouter, Input, key_downs, key_ups, focuses, action_of, actions, step,
  key_down, index,
}

-- The index tells keys apart.
same_key : (a b : Key) → (a ≡ b) ⊎ (index a ≢ index b)
same_key a b = ground arith

key_down_silent :
    (r : KeyRouter) (key k : Key) (repeat captured : Bool) (a : KeyAction)
    → r.pressed k ≡ true
    → (key_down r key repeat captured).1 ≡ some a
    → action_of k ≢ some a
unfolding key_down
key_down_silent r space k repeat captured a h s = ground arith
key_down_silent r _ k repeat captured a h s = ground arith

-- A held key stays held until it is released.
step_held :
    (r : KeyRouter) (e : Input) (k : Key)
    → r.pressed k ≡ true
    → e ≢ key_ups k
    → (step r e).0.pressed k ≡ true
unfolding step
step_held r (key_downs key repeat captured) k h n = ground arith
step_held r (key_ups key) k h n = elim (same_key k key) [
  | inl e ↦ absurd (n (ap key_ups (sym e)))
  | inr e ↦ ground arith
]
step_held r (focuses value) k h n = h

step_held_silent :
    (r : KeyRouter) (e : Input) (k : Key) (a : KeyAction)
    → r.pressed k ≡ true
    → (step r e).1 ≡ some a
    → action_of k ≢ some a
unfolding step
step_held_silent r (key_downs key repeat captured) k a h s =
    key_down_silent r key k repeat captured a h s
step_held_silent r (key_ups key) k a h s = cc
step_held_silent r (focuses value) k a h s = cc

actions_of_held :
    (k : Key) (r : KeyRouter) (es : List Input)
    → r.pressed k ≡ true
    → All (λ e. e ≢ key_ups k) es
    → All (λ a. action_of k ≢ some a) (actions r es)
unfolding actions
actions_of_held k r [] h n = tt
actions_of_held k r (e ∷ es) h n =
    All-emit _ (step r e).1 _ (λ a. step_held_silent r e k a h)
      (actions_of_held k (step r e).0 es (step_held r e k h n.0) n.1)

-- A key press that acts is the first one of its hold, with the window in focus and the key free.
key_down_acts :
    (r : KeyRouter) (key : Key) (repeat captured : Bool) (a : KeyAction)
    → (key_down r key repeat captured).1 ≡ some a
    → (action_of key ≡ some a)
      × (r.pressed key ≡ false)
      × (r.focused ≡ true)
      × (r.blocked key ≡ false)
      × (repeat ≡ false)
      × (captured ≡ false)
      × ((key_down r key repeat captured).0.pressed key ≡ true)
unfolding key_down
key_down_acts r space repeat captured a h = ground arith
key_down_acts r _ repeat captured a h = ground arith

-- If a key press emits an action, it is the action of that key, the window has the focus and the
-- key was neither held, blocked, repeated nor captured; and from then on no sequence of inputs
-- without a release of the key emits that key's action again.
pub one_action_per_press :
    (r : KeyRouter) (key : Key) (repeat captured : Bool) (a : KeyAction) (es : List Input)
    → (key_down r key repeat captured).1 ≡ some a
    → All (λ e. e ≢ key_ups key) es
    → (action_of key ≡ some a)
      × (r.pressed key ≡ false)
      × (r.focused ≡ true)
      × (r.blocked key ≡ false)
      × (repeat ≡ false)
      × (captured ≡ false)
      × All (λ b. action_of key ≢ some b) (actions (key_down r key repeat captured).0 es)
one_action_per_press r key repeat captured a es h n =
    let (p, q, f, b, u, c, held) = key_down_acts r key repeat captured a h in
    (p, q, f, b, u, c, actions_of_held key (key_down r key repeat captured).0 es held n)
