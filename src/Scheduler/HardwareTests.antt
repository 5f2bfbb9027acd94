-- ===== src/Scheduler/HardwareTests.antt =====
-- The hardware tests and the counters of tap/control/command_scheduler.cpp.
use Prim.Native.Nat.{bit_and}
use lateral_root.Prelude.{ℕ, zero, suc, Bool, true, Option, none, some, if◌then◌else◌}
use lateral_root.Bits.{one_hot, complement}
use lateral_root.Registry.{at}
use lateral_root.Iterator.{has_bit, for_each}
use lateral_root.Objects.{Objects, Statics}
use lateral_root.Scheduler.{Scheduler}
use lateral_root.Scheduler.Commands.{dereference, is_command_scheduled, remove_command, add_command}

-- The loops of `subsystemListSize` and `commandListSize`; the first argument is the rounds left.
unfoldable pub count_bits : ℕ → ℕ → ℕ → ℕ
count_bits zero bitmap i = 0
count_bits (suc rounds) bitmap i =
    let rest = count_bits rounds bitmap (suc i) in if has_bit bitmap i then suc rest else rest

module _ {W : Type 0} (o : Objects W) (g : Statics) where
  unfoldable pub subsystem_list_size : Scheduler W → ℕ
  subsystem_list_size s = count_bits g.subsystems.max_index s.registered_subsystem_bitmap 0

  unfoldable pub command_list_size : Scheduler W → ℕ
  command_list_size s = count_bits g.commands.max_index s.added_command_bitmap 0

  unfoldable pub clear_passed : ℕ → Scheduler W → Scheduler W
  clear_passed b s = record s {
    subsystems_passing_hardware_tests =
        bit_and s.subsystems_passing_hardware_tests (complement (one_hot (o.subsystem_id b)));
  }

  unfoldable pub run_hardware_test : ℕ → Scheduler W → Scheduler W
  unfolding clear_passed
  run_hardware_test b s = elim (o.test_command b s.world) [
    | none ↦ s
    | some t ↦ add_command o g (some t) (clear_passed b s)
  ]

  unfoldable pub run_all_hardware_tests : Scheduler W → Scheduler W
  run_all_hardware_tests =
      for_each (λ s. s.registered_subsystem_bitmap) g.subsystems.max_index
        (λ i. dereference (at g.subsystems i) run_hardware_test)

  unfoldable pub stop_hardware_test : ℕ → Scheduler W → Scheduler W
  stop_hardware_test b s = elim (o.test_command b s.world) [
    | none ↦ s
    | some t ↦ remove_command o (some t) true s
  ]

  unfoldable pub stop_all_hardware_tests : Scheduler W → Scheduler W
  stop_all_hardware_tests =
      for_each (λ s. s.registered_subsystem_bitmap) g.subsystems.max_index
        (λ i. dereference (at g.subsystems i) stop_hardware_test)

  unfoldable pub is_running_test : ℕ → Scheduler W → Bool
  is_running_test b s = is_command_scheduled o (o.test_command b s.world) s

  unfoldable pub has_passed_test : ℕ → Scheduler W → Bool
  has_passed_test b s = has_bit s.subsystems_passing_hardware_tests (o.subsystem_id b)

  -- The body of the loop of `countRunningHardwareTests`, at a subsystem of the registrar.
  unfoldable pub count_running : Option ℕ → Scheduler W × ℕ → Scheduler W × ℕ
  unfolding is_running_test
  count_running none (s, total) = (record s { null_dereferenced = true }, total)
  count_running (some b) (s, total) = (s, if is_running_test b s then suc total else total)

  unfoldable pub count_running_hardware_tests : Scheduler W → ℕ
  count_running_hardware_tests s =
      (for_each (λ (t : Scheduler W × ℕ). t.0.registered_subsystem_bitmap) g.subsystems.max_index
        (λ i. count_running (at g.subsystems i)) (s, 0)).1
