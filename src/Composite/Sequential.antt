-- ===== src/Composite/Sequential.antt =====
-- tap/control/sequential_command.hpp. Each method returns the command and the state of the objects;
-- `none` is an access outside of the array of commands.
pub mod Refinement
use Prim.Native.Nat.{bit_or}
use lateral_root.Prelude.{
  ℕ, zero, suc, ◌+◌, Bool, true, false, not, Option, none, some, List, [], ◌∷◌, foldl, ◌==◌,
  if◌then◌else◌, length, get_elem?,
}
use lateral_root.Objects.{Objects}

-- COMMANDS is the length of `commands`.
pub record SequentialCommand : Type 0 where
  pub commands : List ℕ
  pub current_command : ℕ
  pub command_initialized : Bool

module _ {W : Type 0} (o : Objects W) where
  -- The constructor leaves `commandInitialized` without a value, here the argument `unset`. A null
  -- pointer among the commands fails an assertion.
  unfoldable pub construct_sequential : List ℕ → Bool → SequentialCommand
  construct_sequential commands unset = record {
    commands = commands;
    current_command = 0;
    command_initialized = unset;
  }

  unfoldable pub sequential_requirements : List ℕ → ℕ
  sequential_requirements commands = foldl (λ r c. bit_or r (o.requirements c)) 0 commands

  unfoldable pub is_ready_sequential : SequentialCommand → W → Option (Bool × W)
  is_ready_sequential q w = elim (get_elem? q.commands 0) [
    | none ↦ none
    | some c ↦ some (o.is_ready c w)
  ]

  unfoldable pub initialize_sequential : SequentialCommand → SequentialCommand
  initialize_sequential q = record q { current_command = 0; command_initialized = false }

  -- The first `if` of `execute`, at the current command.
  unfoldable pub start_current : ℕ → SequentialCommand × W → SequentialCommand × W
  start_current c (q, w) =
      if not q.command_initialized
      then (let (ready, w') = o.is_ready c w in
          if ready then (record q { command_initialized = true }, o.initialize c w') else (q, w'))
      else (q, w)

  -- The second `if` of `execute`.
  unfoldable pub continue_current : ℕ → SequentialCommand × W → SequentialCommand × W
  continue_current c (q, w) =
      if q.command_initialized
      then (let w' = o.execute c w in
          if o.is_finished c w'
          then (
            record q { command_initialized = false; current_command = q.current_command + 1 },
            o.end c false w',
          )
          else (q, w'))
      else (q, w)

  unfoldable pub execute_sequential : SequentialCommand × W → Option (SequentialCommand × W)
  unfolding start_current continue_current
  execute_sequential (q, w) = elim (get_elem? q.commands q.current_command) [
    | none ↦ none
    | some c ↦ some (continue_current c (start_current c (q, w)))
  ]

  abbrev pub is_finished_sequential : SequentialCommand → Bool
  is_finished_sequential q = q.current_command == length q.commands

  unfoldable pub end_sequential : Bool → SequentialCommand → W → Option W
  end_sequential interrupted q w =
      if not (q.current_command == length q.commands)
      then (elim (get_elem? q.commands q.current_command) [
        | none ↦ none
        | some c ↦ some (o.end c interrupted w)
      ])
      else some w
