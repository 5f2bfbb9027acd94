-- ===== src/Scheduler/Invariant/Calls.antt =====
-- `registerSubsystem` and the hardware tests keep the invariant.
use Prim.Native.Nat.{bit_or}
use native.Mathlib.Decide.{dec_lt}
use lateral_root.Prelude.{
  ℕ, ◌<◌, ◌≡◌, refl, subst, Bool, true, ◌||◌, Option, none, some, arith, ◌==◌, Bool-cases,
  Option-cases, inl, inr,
}
use lateral_root.Bits.{testbit, one_hot, testbit-bit_or}
use lateral_root.Bits.Sets.{bit_or-lt, one_hot-lt, testbit-one_hot}
use lateral_root.Registry.{at}
use lateral_root.Objects.{Objects, Statics}
use lateral_root.Scheduler.{Scheduler, raise_error}
use lateral_root.Scheduler.Subsystems.{register_subsystem, is_subsystem_registered}
use lateral_root.Scheduler.HardwareTests.{
  run_hardware_test, run_all_hardware_tests, stop_hardware_test, stop_all_hardware_tests,
  clear_passed,
}
use lateral_root.Scheduler.Invariant.{WellFormed, Consistent, Inv}
use lateral_root.Scheduler.Invariant.Remove.{remove_command-Inv}
use lateral_root.Scheduler.Invariant.Add.{add_command-Inv}
use lateral_root.Scheduler.Invariant.Loops.{subsystems_loop}

module _ {W : Type 0} {o : Objects W} {g : Statics} (f : WellFormed o g) where
  module _ (b : ℕ) (held : at g.subsystems (o.subsystem_id b) ≡ some b) {r u a : ℕ} {n : Bool}
      (v : Consistent o g r u a n) where
    abbrev r' : ℕ
    r' = bit_or r (one_hot (o.subsystem_id b))

    subsystem_lt : o.subsystem_id b < 64
    subsystem_lt = elim (dec_lt (o.subsystem_id b) g.subsystems.max_index) [
      | yes h ↦ omega (arith, f.subsystems_valid.bounded)
      | no h ↦ cc (f.subsystems_valid.free (o.subsystem_id b) (omega arith))
    ]

    registered_after : (k : ℕ) → testbit r' k ≡ (testbit r k || (o.subsystem_id b == k))
    registered_after k =
        rw (← testbit-one_hot (o.subsystem_id b) k subsystem_lt)
          (testbit-bit_or r (one_hot (o.subsystem_id b)) k)

    register-held : (k : ℕ) → testbit r' k ≡ true → (x : ℕ) × (at g.subsystems k ≡ some x)
    register-held k e = elim (Bool-cases (testbit r k)) [
      | inl old ↦ v.subsystems_held k old
      | inr new ↦
          (b, subst (λ j. at g.subsystems j ≡ some b) (ground (arith, registered_after k)) held)
    ]

    register-Consistent : Consistent o g r' u a n
    register-Consistent = record {
      registered_word = bit_or-lt r _ v.registered_word (one_hot-lt _);
      associated_word = v.associated_word;
      added_word = v.added_word;
      commands_held = v.commands_held;
      subsystems_held = register-held;
      exclusive = v.exclusive;
      covered = v.covered;
      used = v.used;
      registered = λ c k sc q. ground (arith, registered_after k, v.registered c k sc q);
      busy = v.busy;
      sound = v.sound;
    }

  -- Registering a subsystem that the registrar holds, or a null pointer, keeps the invariant.
  pub register_subsystem-Inv :
      (b : Option ℕ) (s : Scheduler W)
      → ((x : ℕ) → b ≡ some x → at g.subsystems (o.subsystem_id x) ≡ some x)
      → Inv o g s
      → Inv o g (register_subsystem o b s)
  unfolding register_subsystem raise_error
  register_subsystem-Inv none s h v = v
  register_subsystem-Inv (some b) s h v = elim (Bool-cases (is_subsystem_registered o (some b) s)) [
    | inl e ↦ rw e v
    | inr e ↦ rw e (register-Consistent b (h b refl) v)
  ]

  pub run_hardware_test-Inv :
      (b : ℕ) (s : Scheduler W) → Inv o g s → Inv o g (run_hardware_test o g b s)
  unfolding run_hardware_test
  run_hardware_test-Inv b s v = elim (Option-cases (o.test_command b s.world)) [
    | inl e ↦ rw (e, run_hardware_test) v
    | inr (t, e) ↦
        rw (e, run_hardware_test)
          (add_command-Inv f t (clear_passed o g b s) v (f.tests b t s.world e))
  ]

  pub stop_hardware_test-Inv :
      (b : ℕ) (s : Scheduler W) → Inv o g s → Inv o g (stop_hardware_test o g b s)
  unfolding stop_hardware_test
  stop_hardware_test-Inv b s v = elim (Option-cases (o.test_command b s.world)) [
    | inl e ↦ rw (e, stop_hardware_test) v
    | inr (t, e) ↦
        rw (e, stop_hardware_test) (remove_command-Inv f s t true v (f.tests b t s.world e))
  ]

  pub run_all_hardware_tests-Inv :
      (s : Scheduler W) → Inv o g s → Inv o g (run_all_hardware_tests o g s)
  unfolding run_all_hardware_tests
  run_all_hardware_tests-Inv s v =
      subsystems_loop f (run_hardware_test o g) run_hardware_test-Inv s v

  pub stop_all_hardware_tests-Inv :
      (s : Scheduler W) → Inv o g s → Inv o g (stop_all_hardware_tests o g s)
  unfolding stop_all_hardware_tests
  stop_all_hardware_tests-Inv s v =
      subsystems_loop f (stop_hardware_test o g) stop_hardware_test-Inv s v
