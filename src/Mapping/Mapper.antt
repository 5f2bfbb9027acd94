-- ===== src/Mapping/Mapper.antt =====
-- tap/control/command_mapper.cpp: every change of the remote's state is handed to each mapping, in
-- the order in which they were added.
use lateral_root.Prelude.{ℕ, Bool, Option, List, [], ◌∷◌, ◌++◌, get_elem?, if◌then◌else◌}
use lateral_root.RemoteMapState.{
  RemoteMapState, SwitchState, nothing_mapped, init_l_switch, init_r_switch, init_keys,
  init_l_mouse_button, init_r_mouse_button,
}
use lateral_root.Mapping.{
  SchedulerMethods, PressMapping, HoldMapping, ToggleMapping, HoldRepeatMapping, execute_press,
  execute_hold, execute_toggle, execute_hold_repeat,
}

-- The classes derived from `CommandMapping`.
pub data Mapping : Type 0 where
  press : PressMapping → Mapping
  hold : HoldMapping → Mapping
  toggle : ToggleMapping → Mapping
  hold_repeat : HoldRepeatMapping → Mapping

-- The map state of `handleKeyStateChange`.
unfoldable pub current_state : ℕ → SwitchState → SwitchState → Bool → Bool → RemoteMapState
current_state key left_switch right_switch mouse_l mouse_r =
    let r = init_keys key (init_r_switch right_switch (init_l_switch left_switch nothing_mapped)) in
    let r' = if mouse_l then init_l_mouse_button r else r in
    if mouse_r then init_r_mouse_button r' else r'

-- `addMap`
abbrev pub add_map : Mapping → List Mapping → List Mapping
add_map m commands_to_run = commands_to_run ++ m ∷ []

-- `getAtIndex`
abbrev pub get_at_index : List Mapping → ℕ → Option Mapping
get_at_index = get_elem?

module _ {S : Type 0} (o : SchedulerMethods S) where
  abbrev pair_map : {A : Type 0} → (A → Mapping) → A × S → Mapping × S
  pair_map f (a, s) = (f a, s)

  unfoldable pub execute_command_mapping : RemoteMapState → Mapping → S → Mapping × S
  execute_command_mapping state (press m) s = pair_map press (execute_press o state (m, s))
  execute_command_mapping state (hold m) s = pair_map hold (execute_hold o state (m, s))
  execute_command_mapping state (toggle m) s = pair_map toggle (execute_toggle o state (m, s))
  execute_command_mapping state (hold_repeat m) s =
      pair_map hold_repeat (execute_hold_repeat o state (m, s))

  unfoldable pub execute_all : RemoteMapState → List Mapping → S → List Mapping × S
  execute_all state [] s = ([], s)
  execute_all state (m ∷ ms) s =
      let (m', t) = execute_command_mapping state m s in
      let (ms', u) = execute_all state ms t in (m' ∷ ms', u)

  unfoldable pub handle_key_state_change :
      ℕ → SwitchState → SwitchState → Bool → Bool → List Mapping → S → List Mapping × S
  unfolding execute_all
  handle_key_state_change key left_switch right_switch mouse_l mouse_r =
      execute_all (current_state key left_switch right_switch mouse_l mouse_r)
