-- ===== src/Mapping.antt =====
-- The command mappings of tap/control: command_mapping.cpp, press_command_mapping.cpp,
-- hold_command_mapping.cpp, hold_repeat_command_mapping.cpp, toggle_command_mapping.cpp, and
-- command_mapper.cpp, which runs them. They use the scheduler through three methods.
pub mod Mapper
pub mod Edges
pub mod Vector
use Prim.Native.Nat.{bit_and}
use lateral_root.Prelude.{
  ℕ, zero, suc, ◌+◌, Bool, true, false, not, ◌&&◌, ◌||◌, Option, none, some, List, [], ◌∷◌, ◌++◌,
  foldl, ltb, ◌==◌, if◌then◌else◌, length, get_or, set, replicate, map,
}
use lateral_root.RemoteMapState.{
  RemoteMapState, SwitchState, nothing_mapped, init_l_switch, init_r_switch, init_keys,
  init_l_mouse_button, init_r_mouse_button, state_subset_of, neg_keys_used, same_state,
}

-- What a mapping uses of `drivers->commandScheduler`; `S` is the state of the scheduler and of all
-- that it reaches.
pub record SchedulerMethods (S : Type 0) : Type 0 where
  pub add_command : Option ℕ → S → S
  pub remove_command : Option ℕ → Bool → S → S
  pub is_command_scheduled : Option ℕ → S → Bool

-- The members of `CommandMapping`.
pub record CommandMapping : Type 0 where
  pub map_state : RemoteMapState
  pub mapped_commands : List (Option ℕ)

-- `std::remove_if` over pointers that are null: those that stay move to the front, and the places
-- behind them keep what they held.
abbrev pub not_null : List (Option ℕ) → List (Option ℕ)
not_null [] = []
not_null (none ∷ cs) = not_null cs
not_null (some c ∷ cs) = some c ∷ not_null cs

abbrev pub drop : {A : Type 0} → ℕ → List A → List A
drop zero xs = xs
drop (suc n) [] = []
drop (suc n) (x ∷ xs) = drop n xs

unfoldable pub remove_if_null : List (Option ℕ) → List (Option ℕ)
remove_if_null cs = not_null cs ++ drop (length (not_null cs)) cs

-- The constructor. The vector is not shortened after `std::remove_if`.
unfoldable pub construct_mapping : List (Option ℕ) → RemoteMapState → CommandMapping
unfolding remove_if_null
construct_mapping cmds rms = record { map_state = rms; mapped_commands = remove_if_null cmds }

abbrev pub mapping_subset : CommandMapping → RemoteMapState → Bool
mapping_subset m state = state_subset_of m.map_state state

abbrev pub neg_keys_subset : RemoteMapState → RemoteMapState → Bool
neg_keys_subset a b = a.neg_keys == bit_and a.neg_keys b.keys

-- The condition that three of the four mappings share.
abbrev pub is_held : CommandMapping → RemoteMapState → Bool
is_held m state =
    mapping_subset m state && not (neg_keys_used m.map_state && neg_keys_subset m.map_state state)

module _ {S : Type 0} (o : SchedulerMethods S) where
  unfoldable pub add_commands : CommandMapping → S → S
  add_commands m s = foldl (λ t c. o.add_command c t) s m.mapped_commands

  unfoldable pub remove_commands : CommandMapping → S → S
  remove_commands m s = foldl (λ t c. o.remove_command c false t) s m.mapped_commands

  none_scheduled : List (Option ℕ) → S → Bool
  none_scheduled [] s = true
  none_scheduled (c ∷ cs) s =
      let rest = none_scheduled cs s in if o.is_command_scheduled c s then false else rest

  unfoldable pub no_commands_scheduled : CommandMapping → S → Bool
  unfolding none_scheduled
  no_commands_scheduled m s = none_scheduled m.mapped_commands s

pub record PressMapping : Type 0 where
  pub mapping : CommandMapping
  pub pressed : Bool

pub record HoldMapping : Type 0 where
  pub mapping : CommandMapping
  pub command_scheduled : Bool

pub record ToggleMapping : Type 0 where
  pub mapping : CommandMapping
  pub pressed : Bool
  pub toggled : Bool

-- `max_times_to_schedule` is `none` for -1.
pub record HoldRepeatMapping : Type 0 where
  pub mapping : CommandMapping
  pub held : Bool
  pub end_commands_when_not_held : Bool
  pub max_times_to_schedule : Option ℕ
  pub reschedule_counts : List ℕ

unfoldable pub construct_press : List (Option ℕ) → RemoteMapState → PressMapping
unfolding construct_mapping
construct_press cmds rms = record { mapping = construct_mapping cmds rms; pressed = false }

unfoldable pub construct_hold : List (Option ℕ) → RemoteMapState → HoldMapping
unfolding construct_mapping
construct_hold cmds rms = record { mapping = construct_mapping cmds rms; command_scheduled = false }

unfoldable pub construct_toggle : List (Option ℕ) → RemoteMapState → ToggleMapping
unfolding construct_mapping
construct_toggle cmds rms = record {
  mapping = construct_mapping cmds rms;
  pressed = false;
  toggled = false;
}

unfoldable pub construct_hold_repeat :
    List (Option ℕ) → RemoteMapState → Bool → Option ℕ → HoldRepeatMapping
unfolding construct_mapping
construct_hold_repeat cmds rms end_commands max_times =
    let m = construct_mapping cmds rms in
    record {
      mapping = m;
      held = false;
      end_commands_when_not_held = end_commands;
      max_times_to_schedule = max_times;
      reschedule_counts = replicate (length m.mapped_commands) 0;
    }

abbrev pub ok_to_schedule_command : HoldRepeatMapping → ℕ → Bool
ok_to_schedule_command m i = elim m.max_times_to_schedule [
  | none ↦ true
  | some limit ↦ ltb (get_or m.reschedule_counts i 0) limit
]

unfoldable pub increment_reschedule_count : ℕ → HoldRepeatMapping → HoldRepeatMapping
increment_reschedule_count i m = elim m.max_times_to_schedule [
  | none ↦ m
  | some limit ↦ record m {
    reschedule_counts = set m.reschedule_counts i (get_or m.reschedule_counts i 0 + 1);
  }
]

module _ {S : Type 0} (o : SchedulerMethods S) where
  unfoldable pub execute_press : RemoteMapState → PressMapping × S → PressMapping × S
  execute_press state (m, s) =
      if is_held m.mapping state
      then if not m.pressed
        then (record m { pressed = true }, add_commands o m.mapping s)
        else (m, s)
      else (record m { pressed = false }, s)

  unfoldable pub execute_hold : RemoteMapState → HoldMapping × S → HoldMapping × S
  execute_hold state (m, s) =
      if is_held m.mapping state
      then if not m.command_scheduled
        then (record m { command_scheduled = true }, add_commands o m.mapping s)
        else (m, s)
      else if m.command_scheduled
      then (record m { command_scheduled = false }, remove_commands o m.mapping s)
      else (m, s)

  -- The first statement of `ToggleCommandMapping::executeCommandMapping`.
  unfoldable pub untoggle_finished : ToggleMapping × S → ToggleMapping
  untoggle_finished (m, s) =
      if no_commands_scheduled o m.mapping s && m.toggled
      then record m { toggled = false; pressed = false }
      else m

  unfoldable pub toggle : RemoteMapState → ToggleMapping × S → ToggleMapping × S
  toggle state (m, s) =
      if neg_keys_used m.mapping.map_state && neg_keys_subset m.mapping.map_state state
      then (
        record m { toggled = false; pressed = false },
        if m.toggled then remove_commands o m.mapping s else s,
      )
      else if mapping_subset m.mapping state
      then if not m.pressed
        then (
          record m { toggled = not m.toggled; pressed = true },
          if not m.toggled then add_commands o m.mapping s else remove_commands o m.mapping s,
        )
        else (m, s)
      else (record m { pressed = false }, s)

  unfoldable pub execute_toggle : RemoteMapState → ToggleMapping × S → ToggleMapping × S
  unfolding toggle untoggle_finished
  execute_toggle state (m, s) = toggle state (untoggle_finished (m, s), s)

  -- The body of the loop of `HoldRepeatCommandMapping` at index `i`.
  unfoldable pub repeat_command : Option ℕ → ℕ → HoldRepeatMapping × S → HoldRepeatMapping × S
  repeat_command c i (m, s) =
      if not (o.is_command_scheduled c s)
      then if ok_to_schedule_command m i
        then (increment_reschedule_count i m, o.add_command c s)
        else (m, s)
      else (m, s)

  unfoldable pub repeat_commands :
      List (Option ℕ) → ℕ → HoldRepeatMapping × S → HoldRepeatMapping × S
  repeat_commands [] i t = t
  repeat_commands (c ∷ cs) i t = repeat_commands cs (suc i) (repeat_command c i t)

  abbrev pub mark_held : HoldRepeatMapping × S → HoldRepeatMapping × S
  mark_held (m, s) = (record m { held = true }, s)

  unfoldable pub execute_hold_repeat :
      RemoteMapState → HoldRepeatMapping × S → HoldRepeatMapping × S
  execute_hold_repeat state (m, s) =
      if is_held m.mapping state
      then mark_held (repeat_commands m.mapping.mapped_commands 0 (m, s))
      else if m.held
      then (
        record m { held = false; reschedule_counts = map (λ _. 0) m.reschedule_counts },
        if m.end_commands_when_not_held then remove_commands o m.mapping s else s,
      )
      else (m, s)
