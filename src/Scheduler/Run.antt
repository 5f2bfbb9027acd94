-- ===== src/Scheduler/Run.antt =====
-- `run` of tap/control/command_scheduler.cpp.
use Prim.Native.Nat.{bit_or}
use lateral_root.Prelude.{
  ℕ, ◌+◌, ◌-◌, ◌%◌, ◌^◌, Bool, true, false, not, ◌&&◌, none, some, ltb, if◌then◌else◌,
}
use lateral_root.Bits.{one_hot}
use lateral_root.Registry.{at}
use lateral_root.Iterator.{has_bit, for_each}
use lateral_root.Objects.{Objects, Statics}
use lateral_root.Scheduler.{Scheduler, raise_error, scheduler_took_too_long}
use lateral_root.Scheduler.Commands.{dereference, safe_disconnected, remove_command, add_command}

-- MAX_ALLOWABLE_SCHEDULER_RUNTIME, in microseconds.
abbrev pub max_allowable_scheduler_runtime : ℕ
max_allowable_scheduler_runtime = 100

module _ {W : Type 0} (o : Objects W) (g : Statics) where
  -- The loop that ends all commands while safe disconnected.
  unfoldable pub end_all : Scheduler W → Scheduler W
  end_all =
      for_each (λ s. s.added_command_bitmap) g.commands.max_index
        (λ i s. remove_command o (at g.commands i) true s)

  unfoldable pub execute_command : ℕ → Scheduler W → Scheduler W
  execute_command c s =
      let s' = record s { world = o.execute c s.world } in
      if o.is_finished c s'.world then remove_command o (some c) false s' else s'

  -- The loop that executes the commands.
  unfoldable pub execute_all : Scheduler W → Scheduler W
  execute_all =
      for_each (λ s. s.added_command_bitmap) g.commands.max_index
        (λ i. dereference (at g.commands i) execute_command)

  -- No command uses the subsystem, and the safe disconnect function says that robots may move.
  abbrev pub is_idle : ℕ → Scheduler W → Bool
  is_idle b s =
      not (safe_disconnected o s)
      && not (has_bit s.subsystems_associated_with_command_bitmap (o.subsystem_id b))

  unfoldable pub note_passed : ℕ → Scheduler W → Scheduler W
  note_passed b s = record s {
    subsystems_passing_hardware_tests =
        bit_or s.subsystems_passing_hardware_tests (one_hot (o.subsystem_id b));
  }

  unfoldable pub note_test : ℕ → Scheduler W → Scheduler W
  unfolding note_passed
  note_test b s =
      if is_idle b s
      then (elim (o.test_command b s.world) [
        | none ↦ s
        | some t ↦ if o.is_finished t s.world then note_passed b s else s
      ])
      else s

  unfoldable pub refresh_one : ℕ → Scheduler W → Scheduler W
  refresh_one b s = record s {
    world =
        if safe_disconnected o s then o.refresh_safe_disconnect b s.world else o.refresh b s.world;
  }

  unfoldable pub start_default : ℕ → Scheduler W → Scheduler W
  start_default b s =
      if is_idle b s
      then (elim (o.default_command b s.world) [ none ↦ s | some d ↦ add_command o g (some d) s ])
      else s

  -- The body of the loop over the subsystems.
  unfoldable pub refresh_subsystem : ℕ → Scheduler W → Scheduler W
  refresh_subsystem b s = start_default b (refresh_one b (note_test b s))

  unfoldable pub refresh_all : Scheduler W → Scheduler W
  refresh_all =
      for_each (λ s. s.registered_subsystem_bitmap) g.subsystems.max_index
        (λ i. dereference (at g.subsystems i) refresh_subsystem)

  unfoldable pub run_commands : Scheduler W → Scheduler W
  run_commands s = if safe_disconnected o s then end_all s else execute_all s

  unfoldable pub run_subsystems : Scheduler W → Scheduler W
  run_subsystems s = if s.is_master_scheduler then refresh_all s else s

  -- The test of the run time, `uint32_t` subtraction; `start` is the time at the start of `run`.
  unfoldable pub check_runtime : ℕ → Scheduler W → Scheduler W
  check_runtime start s =
      if ltb max_allowable_scheduler_runtime
        ((o.time_microseconds s.world + 2 ^ 32 - start) % 2 ^ 32)
      then raise_error scheduler_took_too_long s
      else s

  unfoldable pub run : Scheduler W → Scheduler W
  run s = check_runtime (o.time_microseconds s.world) (run_subsystems (run_commands s))
