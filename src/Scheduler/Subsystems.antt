-- ===== src/Scheduler/Subsystems.antt =====
-- `registerSubsystem` and `isSubsystemRegistered` of tap/control/command_scheduler.cpp.
use Prim.Native.Nat.{bit_and, bit_or}
use lateral_root.Prelude.{ℕ, Bool, false, Option, none, some, ◌!=◌, if◌then◌else◌}
use lateral_root.Bits.{one_hot}
use lateral_root.Objects.{Objects}
use lateral_root.Scheduler.{
  Scheduler, raise_error, registering_nullptr_subsystem, subsystem_already_added,
}

module _ {W : Type 0} (o : Objects W) where
  abbrev pub is_subsystem_registered : Option ℕ → Scheduler W → Bool
  is_subsystem_registered none s = false
  is_subsystem_registered (some b) s =
      bit_and (one_hot (o.subsystem_id b)) s.registered_subsystem_bitmap != 0

  unfoldable pub register_subsystem : Option ℕ → Scheduler W → Scheduler W
  unfolding raise_error
  register_subsystem none s = raise_error registering_nullptr_subsystem s
  register_subsystem (some b) s =
      if is_subsystem_registered (some b) s
      then raise_error subsystem_already_added s
      else record s {
        registered_subsystem_bitmap =
            bit_or s.registered_subsystem_bitmap (one_hot (o.subsystem_id b));
      }
