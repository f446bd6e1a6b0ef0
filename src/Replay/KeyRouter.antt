-- ===== src/Replay/KeyRouter.antt =====
-- src/replay_inspection/key_router.h and key_router.cpp: which physical key presses become actions.
pub mod Press
pub mod Arrows
mod Examples
use ayther_runtime.Prelude.{
  ℕ, Bool, true, false, not, ◌&&◌, ◌||◌, Option, none, some, ◌==◌, if◌then◌else◌, List, [], ◌∷◌,
  emit,
}

-- `enum class Key`.
pub data Key : Type 0 where
  space left right up down info other : Key

-- `enum class KeyAction`; the constructors that `Key` has too are written `KeyAction.left`.
pub data KeyAction : Type 0 where
  toggle left right info : KeyAction

-- `index`: the position of a key in the arrays.
abbrev pub index : Key → ℕ
index space = 0
index Key.left = 1
index Key.right = 2
index up = 3
index down = 4
index Key.info = 5
index other = 6

-- `std::array<bool, key_count>`, read at a key.
abbrev pub Flags : Type 0
Flags = Key → Bool

abbrev pub set_flag : Flags → Key → Bool → Flags
set_flag flags key value k = if index k == index key then value else flags k

pub record KeyRouter : Type 0 where
  pub pressed : Flags
  pub blocked : Flags
  pub focused : Bool
  pub arrows_locked : Bool

unfoldable pub new : KeyRouter
new = record { pressed = λ k. false; blocked = λ k. false; focused = true; arrows_locked = false }

-- The arrow branch of the `switch` of `key_down`.
arrow_down : KeyRouter → Key → KeyAction → KeyRouter × Option KeyAction
arrow_down r opposite action =
    let locked = r.arrows_locked || r.pressed opposite in
    (record r { arrows_locked = locked }, if locked then none else some action)

-- The `switch` of `key_down`.
dispatch : KeyRouter → Key → KeyRouter × Option KeyAction
unfolding arrow_down
dispatch r space = (r, some toggle)
dispatch r Key.info = (r, some KeyAction.info)
dispatch r Key.left = arrow_down r Key.right KeyAction.left
dispatch r Key.right = arrow_down r Key.left KeyAction.right
dispatch r up = (r, none)
dispatch r down = (r, none)
dispatch r other = (r, none)

abbrev is_other : Key → Bool
is_other other = true
is_other k = false

unfoldable pub key_down : KeyRouter → Key → Bool → Bool → KeyRouter × Option KeyAction
unfolding dispatch
key_down r key repeat captured =
    let r' = record r { pressed = set_flag r.pressed key true } in
    if is_other key
    then (r, none)
    else if repeat || (r.pressed key || (not r.focused || r.blocked key))
    then (r', none)
    else if captured
    then (record r' { blocked = set_flag r.blocked key true }, none)
    else dispatch r' key

unfoldable pub key_up : KeyRouter → Key → KeyRouter
key_up r key =
    let pressed' = set_flag r.pressed key false in
    if is_other key then r else record r {
      pressed = pressed';
      blocked = set_flag r.blocked key false;
      arrows_locked =
          if not (pressed' Key.left) && not (pressed' Key.right) then false else r.arrows_locked;
    }

unfoldable pub focus : KeyRouter → Bool → KeyRouter
focus r focused' = record r {
  blocked = if focused' && not r.focused then r.pressed else r.blocked;
  focused = focused';
}

-- What the window can tell the router.
pub data Input : Type 0 where
  key_downs : Key → Bool → Bool → Input
  key_ups : Key → Input
  focuses : Bool → Input

unfoldable pub step : KeyRouter → Input → KeyRouter × Option KeyAction
unfolding key_down key_up focus
step r (key_downs key repeat captured) = key_down r key repeat captured
step r (key_ups key) = (key_up r key, none)
step r (focuses value) = (focus r value, none)

-- The action that a key stands for.
abbrev pub action_of : Key → Option KeyAction
action_of space = some toggle
action_of Key.left = some KeyAction.left
action_of Key.right = some KeyAction.right
action_of Key.info = some KeyAction.info
action_of k = none

-- The actions that a sequence of inputs emits, in order.
unfoldable pub actions : KeyRouter → List Input → List KeyAction
actions r [] = []
actions r (e ∷ es) = emit (step r e).1 (actions (step r e).0 es)
