-- ===== src/Examples/Clocks.antt =====
-- Runs of the timers.
use lateral_root.Prelude.{ℕ, ◌≡◌, ◌↔◌, ◌≤◌, refl, true, false, some, [], ◌∷◌, arith}
use lateral_root.Timers.Timeout.{Timeout, execute}
use lateral_root.Timers.Conditional.{
  construct_conditional, restart_conditional, execute_conditional,
}
use lateral_root.Timers.ConditionalLaws.{execute_calls, execute_conditional-false_since}
use lateral_root.Timers.Periodic.{PeriodicTimer, execute_periodic}
use lateral_root.Timers.PeriodicLaws.{IsNext, execute_periodic-IsNext}

-- A timeout that runs until 50.
abbrev until_50 : Timeout
until_50 = record { is_running = true; is_executed = false; expire_time = 50 }

execute_conditional-false_since_example :
    ((execute_conditional true 40 40 (
        execute_calls
          ((true, 10) ∷ (false, 20) ∷ (true, 30) ∷ [])
          (restart_conditional 0 (construct_conditional 15)))).0
      ≡ true)
    ↔ (35 ≤ 40)
execute_conditional-false_since_example =
    execute_conditional-false_since 0 40 ((true, 10) ∷ (false, 20) ∷ (true, 30) ∷ [])
      (construct_conditional 15) (omega arith) (omega arith, (omega arith, (omega arith, tt)))

-- A timer with period 10 that is checked at 37.
abbrev every_10 : PeriodicTimer
every_10 = record {
  period = 10;
  timeout = record { is_running = true; is_executed = false; expire_time = 10 };
}

execute_periodic-IsNext_example :
    (next : ℕ) × (execute_periodic 30 37 37 every_10
      ≡ some (
        true,
        record every_10 {
          timeout = record { is_running = true; is_executed = false; expire_time = next };
        },
      ))
    × IsNext 10 37 10 next
unfolding execute
execute_periodic-IsNext_example =
    execute_periodic-IsNext 30 37 37 every_10 refl (omega arith) (omega arith) (omega arith)
      (omega arith)

-- A timer whose period is 0.
abbrev every_0 : PeriodicTimer
every_0 = record every_10 { period = 0 }
