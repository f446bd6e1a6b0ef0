-- ===== src/Replay/KeyRouter/Examples.antt =====
-- The key router on concrete presses (src/replay_inspection/key_router.cpp).
use ayther_runtime.Prelude.{◌≡◌, ◌≢◌, refl, true, false, some, List, [], ◌∷◌, All, arith}
use ayther_runtime.Replay.KeyRouter.{
  Key, space, toggle, KeyRouter, new, Input, key_downs, key_ups, action_of, actions, step, key_down,
}
use ayther_runtime.Replay.KeyRouter.Press.{one_action_per_press}
use ayther_runtime.Replay.KeyRouter.Arrows.{arrows_locked_until_released, is_arrow, ArrowStaysHeld}

abbrev presses : List Input
presses = key_downs space true false ∷ key_ups Key.left ∷ key_downs space false false ∷ []

space_toggles : (key_down new space false false).1 ≡ some toggle
unfolding key_down new
space_toggles = refl

no_release : All (λ e. e ≢ key_ups space) presses
no_release = (ground arith, (ground arith, (ground arith, tt)))

one_action_per_press_example :
    (action_of space ≡ some toggle)
    × (new.pressed space ≡ false)
    × (new.focused ≡ true)
    × (new.blocked space ≡ false)
    × (false ≡ false)
    × (false ≡ false)
    × All (λ b. action_of space ≢ some b) (actions (key_down new space false false).0 presses)
one_action_per_press_example =
    one_action_per_press new space false false toggle presses space_toggles no_release

-- A router on which the left arrow is held.
abbrev left_held : KeyRouter
left_held = (key_down new Key.left false false).0

abbrev arrow_inputs : List Input
arrow_inputs = key_ups Key.left ∷ key_downs Key.left false false ∷ key_ups Key.right ∷ []

left_pressed : left_held.pressed Key.left ≡ true
unfolding key_down new
left_pressed = refl

right_free : left_held.pressed Key.right ≡ false
unfolding key_down new
right_free = refl

in_focus : left_held.focused ≡ true
unfolding key_down new
in_focus = refl

right_open : left_held.blocked Key.right ≡ false
unfolding key_down new
right_open = refl

stays_held : ArrowStaysHeld (key_down left_held Key.right false false).0 arrow_inputs
unfolding key_down new step
stays_held = (refl, (refl, (refl, tt)))

arrows_locked_until_released_example :
    All
      (λ a. is_arrow a ≡ false)
      (actions left_held (key_downs Key.right false false ∷ arrow_inputs))
arrows_locked_until_released_example =
    arrows_locked_until_released left_held arrow_inputs left_pressed right_free in_focus right_open
      stays_held
