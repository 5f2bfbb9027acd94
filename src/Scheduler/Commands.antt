-- ===== src/Scheduler/Commands.antt =====
-- Adding and removing commands: `addCommand`, `isCommandScheduled`, `removeCommand`,
-- `setSafeDisconnectFunction` and `safeDisconnected` of tap/control/command_scheduler.cpp.
use Prim.Native.Nat.{bit_and, bit_or}
use lateral_root.Prelude.{
  ℕ, Bool, true, false, not, ◌||◌, Option, none, some, ◌==◌, ◌!=◌, if◌then◌else◌,
}
use lateral_root.Bits.{one_hot, complement}
use lateral_root.Registry.{at}
use lateral_root.Iterator.{has_bit, for_each}
use lateral_root.Objects.{Objects, Statics}
use lateral_root.Scheduler.{
  Scheduler, raise_error, adding_nullptr_command, adding_command_without_subsystem,
  removing_nullptr_command,
}

unfoldable pub set_safe_disconnect_function : {W : Type 0} → ℕ → Scheduler W → Scheduler W
set_safe_disconnect_function f s = record s { safe_disconnect_function = f }

-- A call of a method on what an iterator points to.
abbrev pub dereference :
    {W : Type 0} → Option ℕ → (ℕ → Scheduler W → Scheduler W) → Scheduler W → Scheduler W
dereference none body s = record s { null_dereferenced = true }
dereference (some object) body s = body object s

module _ {W : Type 0} (o : Objects W) where
  abbrev pub safe_disconnected : Scheduler W → Bool
  safe_disconnected s = o.safe_disconnect s.safe_disconnect_function s.world

  abbrev pub is_command_scheduled : Option ℕ → Scheduler W → Bool
  is_command_scheduled none s = false
  is_command_scheduled (some c) s = has_bit s.added_command_bitmap (o.command_id c)

  -- The end of a scheduled command.
  unfoldable pub unschedule : ℕ → Bool → Scheduler W → Scheduler W
  unschedule c interrupted s = record s {
    world = o.end c interrupted s.world;
    subsystems_associated_with_command_bitmap =
        bit_and s.subsystems_associated_with_command_bitmap (complement (o.requirements c));
    added_command_bitmap = bit_and s.added_command_bitmap (complement (one_hot (o.command_id c)));
  }

  unfoldable pub remove_command : Option ℕ → Bool → Scheduler W → Scheduler W
  unfolding raise_error
  remove_command none interrupted s = raise_error removing_nullptr_command s
  remove_command (some c) interrupted s =
      if not (is_command_scheduled (some c) s) then s else unschedule c interrupted s

  -- The body of the loop of `addCommand`, at a command of the registrar.
  unfoldable pub interrupt : ℕ → ℕ → Scheduler W → Scheduler W
  interrupt required c s =
      if bit_and (o.requirements c) required != 0 then remove_command (some c) true s else s

  -- The last three statements of `addCommand`.
  unfoldable pub schedule : ℕ → Scheduler W → Scheduler W
  schedule c s = record s {
    subsystems_associated_with_command_bitmap =
        bit_or s.subsystems_associated_with_command_bitmap (o.requirements c);
    world = o.initialize c s.world;
    added_command_bitmap = bit_or s.added_command_bitmap (one_hot (o.command_id c));
  }

  -- Are the requirements of a command registered, and is there one?
  abbrev pub requirements_registered : ℕ → Scheduler W → Bool
  requirements_registered required s =
      not (bit_and required s.registered_subsystem_bitmap != required || required == 0)

module _ {W : Type 0} (o : Objects W) (g : Statics) where
  unfoldable pub interrupt_all : ℕ → Scheduler W → Scheduler W
  interrupt_all required =
      for_each (λ s. s.added_command_bitmap) g.commands.max_index
        (λ i. dereference (at g.commands i) (interrupt o required))

  unfoldable pub add_ready_command : ℕ → Scheduler W → Scheduler W
  add_ready_command c s =
      if requirements_registered o (o.requirements c) s
      then schedule o c (interrupt_all (o.requirements c) s)
      else raise_error adding_command_without_subsystem s

  unfoldable pub add_checked_command : Bool × W → ℕ → Scheduler W → Scheduler W
  add_checked_command (ready, w) c s =
      let asked = record s { world = w } in if not ready then asked else add_ready_command c asked

  unfoldable pub add_command : Option ℕ → Scheduler W → Scheduler W
  unfolding raise_error add_checked_command
  add_command none s = if safe_disconnected o s then s else raise_error adding_nullptr_command s
  add_command (some c) s =
      if safe_disconnected o s then s else add_checked_command (o.is_ready c s.world) c s
