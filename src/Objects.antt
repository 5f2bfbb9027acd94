-- ===== src/Objects.antt =====
-- What the scheduler calls on a command, a subsystem and the safe disconnect function
-- (tap/control/command.hpp, tap/control/subsystem.hpp, `SafeDisconnectFunction`). Their classes are
-- derived in robot code, so the virtual methods are a parameter: `W` is the state of all such
-- objects, and an object is named by its address. They do not call the scheduler back.
use lateral_root.Prelude.{ℕ, Bool, false, Option}
use lateral_root.Registry.{Registry, empty}

pub record Objects (W : Type 0) : Type 0 where
  -- Command
  pub command_id : ℕ → ℕ
  pub requirements : ℕ → ℕ
  pub is_ready : ℕ → W → Bool × W
  pub initialize : ℕ → W → W
  pub execute : ℕ → W → W
  pub end : ℕ → Bool → W → W
  pub is_finished : ℕ → W → Bool
  -- Subsystem
  pub subsystem_id : ℕ → ℕ
  pub default_command : ℕ → W → Option ℕ
  pub test_command : ℕ → W → Option ℕ
  pub refresh : ℕ → W → W
  pub refresh_safe_disconnect : ℕ → W → W
  -- SafeDisconnectFunction
  pub safe_disconnect : ℕ → W → Bool
  -- arch::clock::getTimeMicroseconds
  pub time_microseconds : W → ℕ

-- The static members of `CommandScheduler`.
pub record Statics : Type 0 where
  pub commands : Registry
  pub subsystems : Registry
  pub master_scheduler_exists : Bool

abbrev pub no_statics : Statics
no_statics = record { commands = empty; subsystems = empty; master_scheduler_exists = false }
