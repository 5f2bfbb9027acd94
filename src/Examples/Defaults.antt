-- ===== src/Examples/Defaults.antt =====
-- A run of a robot whose two subsystems have default commands.
use lateral_root.Prelude.{
  ℕ, zero, suc, ◌≡◌, refl, ap, subst, true, false, Option, none, some, List, [], get_or-replicate,
}
use lateral_root.Bits.{testbit, one_hot}
use lateral_root.Registry.{at}
use lateral_root.Objects.{Objects}
use lateral_root.Scheduler.{Scheduler, construct_scheduler}
use lateral_root.Scheduler.Subsystems.{register_subsystem}
use lateral_root.Scheduler.Run.{run}
use lateral_root.Scheduler.Invariant.{WellFormed, IsScheduled, Requires, Inv}
use lateral_root.Scheduler.Reach.{constructed, called, registers, Reach-Inv}
use lateral_root.Scheduler.Defaults.{HasDefaults}
use lateral_root.Scheduler.Defaults.Refresh.{run-uses_all}
use lateral_root.Examples.Robot.{
  Event, robot, statics, two, three, two-IsValid, three-IsValid, three_ids, requirement_words,
  requirements_of,
}

-- Every subsystem but the first one has the identifier 1.
abbrev id_of : ℕ → ℕ
id_of zero = 0
id_of (suc b) = 1

abbrev busy_robot : Objects (List Event)
busy_robot = record robot {
  subsystem_id = id_of;
  default_command = λ b w. some (id_of b);
  test_command = λ b w. none;
  safe_disconnect = λ f w. false;
}

two_ids : (i b : ℕ) → at two i ≡ some b → id_of b ≡ i
two_ids zero b e = ap id_of {y = 0} (cc)
two_ids (suc zero) b e = ap id_of {y = 1} (cc)
two_ids (suc (suc i)) b e = cc (get_or-replicate {A = Option ℕ} 62 i none)

defaults : (b c : ℕ) (w : List Event) → some (id_of b) ≡ some c → at three c ≡ some c
defaults zero c w e = subst (λ x. at three x ≡ some x) {x = 0} (cc) refl
defaults (suc b) c w e = subst (λ x. at three x ≡ some x) {x = 1} (cc) refl

busy_robot-WellFormed : WellFormed busy_robot statics
busy_robot-WellFormed = record {
  commands_valid = three-IsValid;
  subsystems_valid = two-IsValid;
  command_ids = three_ids;
  subsystem_ids = two_ids;
  requirement_words = requirement_words;
  defaults = defaults;
  tests = λ b c w e. cc;
}

own : (b d : ℕ) (w : List Event) → some (id_of b) ≡ some d → requirements_of d ≡ one_hot (id_of b)
unfolding one_hot
own zero d w e = ap requirements_of {y = 0} (cc)
own (suc b) d w e = ap requirements_of {y = 1} (cc)

busy_robot-HasDefaults : HasDefaults busy_robot
busy_robot-HasDefaults = record {
  connected = λ f w. refl;
  present = λ b w. (id_of b, refl);
  ready = λ b d w e. refl;
  own = own;
}

abbrev waiting : Scheduler (List Event)
waiting =
    register_subsystem busy_robot (some 1)
      (register_subsystem busy_robot (some 0) (construct_scheduler true 0 statics []).0)

waiting-Inv : Inv busy_robot statics waiting
waiting-Inv = Reach-Inv busy_robot-WellFormed (
    called
      (called (constructed true 0 statics [])
        (registers (construct_scheduler true 0 statics []).0 0 refl))
      (registers (register_subsystem busy_robot (some 0) (construct_scheduler true 0 statics []).0)
        1 refl))

waiting_master : waiting.is_master_scheduler ≡ true
unfolding register_subsystem construct_scheduler one_hot
waiting_master = refl

waiting_registered : testbit waiting.registered_subsystem_bitmap 1 ≡ true
unfolding register_subsystem construct_scheduler one_hot testbit
waiting_registered = refl

run-uses_all_example :
    (c : ℕ) × IsScheduled busy_robot statics (run busy_robot statics waiting) c
    × Requires busy_robot statics c 1
run-uses_all_example =
    run-uses_all busy_robot-WellFormed busy_robot-HasDefaults waiting 1 waiting-Inv waiting_master
      waiting_registered
