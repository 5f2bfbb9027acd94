-- ===== src/Examples/Robot.antt =====
-- Three commands on two subsystems, and a log of what is called on them.
use lateral_root.Prelude.{
  ℕ, zero, suc, ◌≡◌, ◌<◌, ◌≤◌, ◌^◌, refl, subst, Bool, true, false, Option, none, some, List, [],
  ◌∷◌, ◌++◌, arith, replicate, get_or-replicate, ◌==◌,
}
use lateral_root.Registry.{Registry, at}
use lateral_root.Registry.Laws.{IsValid}
use lateral_root.Objects.{Objects, Statics}
use lateral_root.Scheduler.{Scheduler, construct_scheduler}
use lateral_root.Scheduler.Invariant.{WellFormed, Inv}
use lateral_root.Scheduler.Reach.{Reach, constructed, called, registers, adds, Reach-Inv}
use lateral_root.Scheduler.Commands.{add_command}
use lateral_root.Scheduler.Subsystems.{register_subsystem}

pub data Event : Type 0 where
  asked initialized executed refreshed : ℕ → Event
  ended : ℕ → Bool → Event

-- The requirements of the commands 0, 1 and 2.
abbrev pub requirements_of : ℕ → ℕ
requirements_of zero = 1
requirements_of (suc zero) = 2
requirements_of (suc (suc zero)) = 3
requirements_of (suc (suc (suc c))) = 0

abbrev pub default_of : ℕ → Option ℕ
default_of zero = some 0
default_of (suc zero) = some 1
default_of (suc (suc b)) = none

abbrev pub test_of : ℕ → Option ℕ
test_of zero = some 2
test_of (suc b) = none

abbrev pub robot : Objects (List Event)
robot = record {
  command_id = λ c. c;
  requirements = requirements_of;
  is_ready = λ c w. (true, w ++ asked c ∷ []);
  initialize = λ c w. w ++ initialized c ∷ [];
  execute = λ c w. w ++ executed c ∷ [];
  end = λ c b w. w ++ ended c b ∷ [];
  is_finished = λ c w. c == 1;
  subsystem_id = λ b. b;
  default_command = λ b w. default_of b;
  test_command = λ b w. test_of b;
  refresh = λ b w. w ++ refreshed b ∷ [];
  refresh_safe_disconnect = λ b w. w;
  safe_disconnect = λ f w. f == 1;
  time_microseconds = λ w. 0;
}

abbrev pub two : Registry
two = record { slots = some 0 ∷ some 1 ∷ replicate 62 none; max_index = 2 }

abbrev pub three : Registry
three = record { slots = some 0 ∷ some 1 ∷ some 2 ∷ replicate 61 none; max_index = 3 }

abbrev pub statics : Statics
statics = record { commands = three; subsystems = two; master_scheduler_exists = false }

pub two-IsValid : IsValid two
two-IsValid = record { size = refl; bounded = omega arith; free = free }
  where
    free : (i : ℕ) → 2 ≤ i → at two i ≡ none
    free zero h = absurd (omega arith)
    free (suc zero) h = absurd (omega arith)
    free (suc (suc i)) h = get_or-replicate 62 i none

pub three-IsValid : IsValid three
three-IsValid = record { size = refl; bounded = omega arith; free = free }
  where
    free : (i : ℕ) → 3 ≤ i → at three i ≡ none
    free zero h = absurd (omega arith)
    free (suc zero) h = absurd (omega arith)
    free (suc (suc zero)) h = absurd (omega arith)
    free (suc (suc (suc i))) h = get_or-replicate 61 i none

two_ids : (i b : ℕ) → at two i ≡ some b → b ≡ i
two_ids zero b e = cc
two_ids (suc zero) b e = cc
two_ids (suc (suc i)) b e = cc (get_or-replicate {A = Option ℕ} 62 i none)

pub three_ids : (i c : ℕ) → at three i ≡ some c → c ≡ i
three_ids zero c e = cc
three_ids (suc zero) c e = cc
three_ids (suc (suc zero)) c e = cc
three_ids (suc (suc (suc i))) c e = cc (get_or-replicate {A = Option ℕ} 61 i none)

pub requirement_words : (c : ℕ) → requirements_of c < 2 ^ 64
requirement_words zero = omega arith
requirement_words (suc zero) = omega arith
requirement_words (suc (suc zero)) = omega arith
requirement_words (suc (suc (suc c))) = omega arith

defaults : (b c : ℕ) (w : List Event) → default_of b ≡ some c → at three c ≡ some c
defaults zero c w e = subst (λ x. at three x ≡ some x) {x = 0} (cc) refl
defaults (suc zero) c w e = subst (λ x. at three x ≡ some x) {x = 1} (cc) refl
defaults (suc (suc b)) c w e = cc

tests : (b c : ℕ) (w : List Event) → test_of b ≡ some c → at three c ≡ some c
tests zero c w e = subst (λ x. at three x ≡ some x) {x = 2} (cc) refl
tests (suc b) c w e = cc

pub robot-WellFormed : WellFormed robot statics
robot-WellFormed = record {
  commands_valid = three-IsValid;
  subsystems_valid = two-IsValid;
  command_ids = three_ids;
  subsystem_ids = two_ids;
  requirement_words = requirement_words;
  defaults = defaults;
  tests = tests;
}

-- A master scheduler with both subsystems registered, and the command 0 added.
abbrev pub fresh : Scheduler (List Event)
fresh = (construct_scheduler true 0 statics []).0

abbrev pub registered : Scheduler (List Event)
registered = register_subsystem robot (some 1) (register_subsystem robot (some 0) fresh)

abbrev pub running : Scheduler (List Event)
running = add_command robot statics (some 0) registered

pub registered-Reach : Reach robot statics registered
registered-Reach =
    called (called (constructed true 0 statics []) (registers fresh 0 refl))
      (registers (register_subsystem robot (some 0) fresh) 1 refl)

pub running-Reach : Reach robot statics running
running-Reach = called registered-Reach (adds registered 0 refl)

pub registered-Inv : Inv robot statics registered
registered-Inv = Reach-Inv robot-WellFormed registered-Reach

pub running-Inv : Inv robot statics running
running-Inv = Reach-Inv robot-WellFormed running-Reach

-- The command 1 runs beside it.
abbrev pub both : Scheduler (List Event)
both = add_command robot statics (some 1) running

pub both-Reach : Reach robot statics both
both-Reach = called running-Reach (adds running 1 refl)
