-- ===== src/Scheduler/Reach.antt =====
-- Every history of calls on a scheduler, with anything happening to the objects between the calls.
use lateral_root.Prelude.{
  ℕ, ◌≡◌, ◌≢◌, ◌↔◌, refl, subst, Bool, true, false, ◌&&◌, none, some, arith, Bool-cases, inl, inr,
}
use lateral_root.Bits.{testbit, zero-testbit}
use lateral_root.Registry.{at}
use lateral_root.Objects.{Objects, Statics}
use lateral_root.Scheduler.{Scheduler, construct_scheduler}
use lateral_root.Scheduler.Commands.{remove_command, add_command, set_safe_disconnect_function}
use lateral_root.Scheduler.Subsystems.{register_subsystem}
use lateral_root.Scheduler.Run.{run}
use lateral_root.Scheduler.HardwareTests.{
  run_hardware_test, run_all_hardware_tests, stop_hardware_test, stop_all_hardware_tests,
}
use lateral_root.Scheduler.Invariant.{
  WellFormed, IsConstructed, Requires, Consistent, IsScheduled, Inv,
}
use lateral_root.Scheduler.Invariant.Remove.{remove_command-Inv}
use lateral_root.Scheduler.Invariant.Add.{add_command-Inv}
use lateral_root.Scheduler.Invariant.Run.{run-Inv}
use lateral_root.Scheduler.Invariant.Calls.{
  register_subsystem-Inv, run_hardware_test-Inv, run_all_hardware_tests-Inv, stop_hardware_test-Inv,
  stop_all_hardware_tests-Inv,
}

module _ {W : Type 0} (o : Objects W) (g : Statics) where
  -- One call. Commands and subsystems that are passed in were constructed.
  pub data Step : Scheduler W → Scheduler W → Type 0 where
    environment : (s : Scheduler W) (w : W) → Step s (record s { world = w })
    runs : (s : Scheduler W) → Step s (run o g s)
    adds : (s : Scheduler W) (c : ℕ) → IsConstructed o g c → Step s (add_command o g (some c) s)
    adds_null : (s : Scheduler W) → Step s (add_command o g none s)
    removes :
        (s : Scheduler W) (c : ℕ) (interrupted : Bool)
        → IsConstructed o g c
        → Step s (remove_command o (some c) interrupted s)
    removes_null :
        (s : Scheduler W) (interrupted : Bool) → Step s (remove_command o none interrupted s)
    registers :
        (s : Scheduler W) (b : ℕ)
        → at g.subsystems (o.subsystem_id b) ≡ some b
        → Step s (register_subsystem o (some b) s)
    registers_null : (s : Scheduler W) → Step s (register_subsystem o none s)
    sets_function : (s : Scheduler W) (f : ℕ) → Step s (set_safe_disconnect_function f s)
    tests : (s : Scheduler W) (b : ℕ) → Step s (run_hardware_test o g b s)
    tests_all : (s : Scheduler W) → Step s (run_all_hardware_tests o g s)
    stops_test : (s : Scheduler W) (b : ℕ) → Step s (stop_hardware_test o g b s)
    stops_tests : (s : Scheduler W) → Step s (stop_all_hardware_tests o g s)

  -- The schedulers that calls can lead to from one that was just constructed.
  pub data Reach : Scheduler W → Type 0 where
    constructed :
        (master : Bool) (f : ℕ) (h : Statics) (w : W) → Reach (construct_scheduler master f h w).0
    called : {s t : Scheduler W} → Reach s → Step s t → Reach t

module _ {W : Type 0} {o : Objects W} {g : Statics} (f : WellFormed o g) where
  nothing_set : (A : Type 0) (i : ℕ) → testbit 0 i ≡ true → A
  nothing_set A i e = cc (zero-testbit i)

  fresh-Consistent : Consistent o g 0 0 0 false
  fresh-Consistent = record {
    registered_word = omega arith;
    associated_word = omega arith;
    added_word = omega arith;
    commands_held = λ i e. nothing_set _ i e;
    subsystems_held = λ i e. nothing_set _ i e;
    exclusive = λ c d k sc sd p q. nothing_set _ _ sc.1;
    covered = λ c k sc q. nothing_set _ _ sc.1;
    used = λ k e. nothing_set _ k e;
    registered = λ c k sc q. nothing_set _ _ sc.1;
    busy = λ c sc. nothing_set _ _ sc.1;
    sound = refl;
  }

  construct-Inv :
      (master : Bool) (d : ℕ) (h : Statics) (w : W) → Inv o g (construct_scheduler master d h w).0
  unfolding construct_scheduler
  construct-Inv master d h w = elim (Bool-cases (master && h.master_scheduler_exists)) [
    | inl e ↦ rw e fresh-Consistent
    | inr e ↦ rw e fresh-Consistent
  ]

  add_null-Inv : (s : Scheduler W) → Inv o g s → Inv o g (add_command o g none s)
  unfolding add_command
  add_null-Inv s v = ground arith

  Step-Inv : {s t : Scheduler W} → Step o g s t → Inv o g s → Inv o g t
  unfolding remove_command set_safe_disconnect_function
  Step-Inv (environment s w) v = v
  Step-Inv (runs s) v = run-Inv f s v
  Step-Inv (adds s c h) v = add_command-Inv f c s v h
  Step-Inv (adds_null s) v = add_null-Inv s v
  Step-Inv (removes s c b h) v = remove_command-Inv f s c b v h
  Step-Inv (removes_null s b) v = v
  Step-Inv (registers s b h) v =
      register_subsystem-Inv f (some b) s
        (λ x e. subst (λ y. at g.subsystems (o.subsystem_id y) ≡ some y) {x = b} (cc) h) v
  Step-Inv (registers_null s) v = register_subsystem-Inv f none s (λ x e. cc) v
  Step-Inv (sets_function s d) v = v
  Step-Inv (tests s b) v = run_hardware_test-Inv f b s v
  Step-Inv (tests_all s) v = run_all_hardware_tests-Inv f s v
  Step-Inv (stops_test s b) v = stop_hardware_test-Inv f b s v
  Step-Inv (stops_tests s) v = stop_all_hardware_tests-Inv f s v

  -- The invariant holds after every history of calls.
  pub Reach-Inv : {s : Scheduler W} → Reach o g s → Inv o g s
  Reach-Inv (constructed master d h w) = construct-Inv master d h w
  Reach-Inv (called r st) = Step-Inv st (Reach-Inv r)

  -- If the registrars are well formed and stay the same, then after every sequence of calls on a
  -- scheduler, a subsystem that one scheduled command uses is used by no other scheduled command.
  pub Reach-exclusive :
      {s : Scheduler W} (c d k : ℕ)
      → Reach o g s
      → IsScheduled o g s c
      → IsScheduled o g s d
      → c ≢ d
      → Requires o g c k
      → testbit (o.requirements d) k ≡ false
  Reach-exclusive c d k r sc sd ne q = elim (Bool-cases (testbit (o.requirements d) k)) [
    | inl e ↦ absurd (ne ((Reach-Inv r).exclusive c d k sc sd q e))
    | inr e ↦ e
  ]

  -- If the registrars are well formed and stay the same, then after every sequence of calls on a
  -- scheduler, a subsystem is marked as associated with a command exactly when some scheduled
  -- command uses it.
  pub Reach-associated :
      (s : Scheduler W) (k : ℕ)
      → Reach o g s
      → (testbit s.subsystems_associated_with_command_bitmap k ≡ true)
        ↔ ((c : ℕ) × IsScheduled o g s c × Requires o g c k)
  Reach-associated s k r =
      ((Reach-Inv {s = s} r).used k, λ h. (Reach-Inv {s = s} r).covered h.0 k h.1 h.2)
