-- ===== src/Examples/Commands.antt =====
-- Runs of the commands that run other commands, on the robot.
use lateral_root.Prelude.{◌≡◌, true, false, some, List, [], ◌∷◌, arith, ◌==◌}
use lateral_root.Composite.Sequential.{SequentialCommand, execute_sequential}
use lateral_root.Composite.Sequential.Refinement.{
  Follows, view, run_queue, execute_sequential-Follows,
}
use lateral_root.Composite.Concurrent.{ConcurrentCommand}
use lateral_root.Composite.Governor.{Governors, GovernorWithFallbackCommand}
use lateral_root.Examples.Robot.{Event, robot}

-- The second command of two is under way.
abbrev halfway : SequentialCommand
halfway = record { commands = 0 ∷ 1 ∷ []; current_command = 1; command_initialized = true }

execute_sequential-Follows_example :
    (t : SequentialCommand × List Event) × (execute_sequential robot (halfway, []) ≡ some t)
    × Follows (0 ∷ 1 ∷ []) t (run_queue robot (view halfway, []))
execute_sequential-Follows_example = execute_sequential-Follows robot halfway [] (omega arith)

-- Of two commands the second one has finished.
abbrev one_left : ConcurrentCommand
one_left = record {
  commands = 0 ∷ 1 ∷ [];
  finished_commands = 2;
  all_commands = 3;
  requirements = 3;
  race = false;
}

-- A command whose two commands have finished.
abbrev all_done : ConcurrentCommand
all_done = record {
  commands = 0 ∷ 1 ∷ [];
  finished_commands = 3;
  all_commands = 3;
  requirements = 3;
  race = false;
}

-- Governors that are ready from an identifier on.
abbrev governors : Governors (List Event)
governors = record {
  on_governed_command_initialized = λ x w. w;
  governor_is_ready = λ x w. (x == 1, w);
  governor_is_finished = λ x w. (x == 2, w);
}

-- The governed command 0 runs, and its governor is no longer ready.
abbrev governed : GovernorWithFallbackCommand
governed = record {
  governed_command_selected = true;
  command_when_governors_ready = 0;
  fallback_command = 1;
  governors = 2 ∷ [];
  stop_fallback_command_if_governors_ready = false;
}
