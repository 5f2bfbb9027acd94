-- ===== src/Scheduler.antt =====
-- tap/control/command_scheduler.cpp: the state of a `CommandScheduler` and its methods. A method takes
-- the scheduler last and returns the new one. The iteration over commands and subsystems is that of
-- `Iterator`, over the registrars of the static members.
pub mod Commands
pub mod Subsystems
pub mod Run
pub mod HardwareTests
pub mod Invariant
pub mod Effects
pub mod Reach
pub mod Masters
pub mod Defaults
use lateral_root.Prelude.{
  ℕ, zero, suc, ◌+◌, ◌-◌, ◌%◌, ◌^◌, Bool, true, false, not, ◌&&◌, ◌||◌, Option, none, some, List,
  [], ◌∷◌, ◌++◌, ltb, ◌==◌, ◌!=◌, if◌then◌else◌,
}
use lateral_root.Bits.{one_hot, complement}
use lateral_root.Registry.{at}
use lateral_root.Iterator.{has_bit, for_each, loop}
use lateral_root.Objects.{Objects, Statics}

-- The messages of RAISE_ERROR in this file, in order.
pub data Error : Type 0 where
  master_scheduler_already_exists scheduler_took_too_long adding_nullptr_command : Error
  adding_command_without_subsystem removing_nullptr_command registering_nullptr_subsystem : Error
  subsystem_already_added : Error

-- `errors` holds what was raised so far. `null_dereferenced` says that a method was called through a
-- null pointer; the call is left out of the model, so all that follows is without meaning.
pub record Scheduler (W : Type 0) : Type 0 where
  pub registered_subsystem_bitmap : ℕ
  pub subsystems_associated_with_command_bitmap : ℕ
  pub subsystems_passing_hardware_tests : ℕ
  pub added_command_bitmap : ℕ
  pub is_master_scheduler : Bool
  pub safe_disconnect_function : ℕ
  pub errors : List Error
  pub null_dereferenced : Bool
  pub world : W

unfoldable pub raise_error : {W : Type 0} → Error → Scheduler W → Scheduler W
raise_error e s = record s { errors = s.errors ++ e ∷ [] }

-- The constructor. It reads and sets the static flag.
unfoldable pub construct_scheduler : {W : Type 0} → Bool → ℕ → Statics → W → Scheduler W × Statics
unfolding raise_error
construct_scheduler {W} master function g w =
    if master && g.master_scheduler_exists
    then (raise_error master_scheduler_already_exists fresh, g)
    else (
      record fresh { is_master_scheduler = master },
      record g { master_scheduler_exists = g.master_scheduler_exists || master },
    )
  where
    fresh : Scheduler W
    fresh = record {
      registered_subsystem_bitmap = 0;
      subsystems_associated_with_command_bitmap = 0;
      subsystems_passing_hardware_tests = 0;
      added_command_bitmap = 0;
      is_master_scheduler = false;
      safe_disconnect_function = function;
      errors = [];
      null_dereferenced = false;
      world = w;
    }

-- The destructor.
unfoldable pub destruct_scheduler : {W : Type 0} → Scheduler W → Statics → Statics
destruct_scheduler s g =
    if s.is_master_scheduler then record g { master_scheduler_exists = false } else g
