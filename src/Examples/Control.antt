-- ===== src/Examples/Control.antt =====
-- Runs of the registrars, the iterator and the scheduler on the robot.
use lateral_root.Prelude.{
  ℕ, ◌≡◌, ◌≢◌, ◌≤◌, ◌↔◌, refl, true, false, none, some, List, [], ◌∷◌, ◌++◌, foldl, arith,
  replicate,
}
use lateral_root.Bits.{testbit, one_hot, complement}
use lateral_root.Scheduler.Subsystems.{register_subsystem}
use lateral_root.Registry.{Registry, construct, destruct, ok}
use lateral_root.Registry.Laws.{construct_lem, Constructed}
use lateral_root.Iterator.{for_each}
use lateral_root.Scheduler.{construct_scheduler, destruct_scheduler}
use lateral_root.Scheduler.Commands.{
  interrupt, interrupt_all, schedule, unschedule, add_ready_command, add_command, remove_command,
  safe_disconnected, requirements_registered,
}
use lateral_root.Scheduler.Run.{execute_all, end_all}
use lateral_root.Scheduler.Invariant.{IsScheduled, Requires, Inv}
use lateral_root.Scheduler.Invariant.Interrupt.{IsApart}
use lateral_root.Scheduler.Invariant.Add.{add_command-schedules}
use lateral_root.Scheduler.Invariant.Disconnect.{end_all-ends}
use lateral_root.Scheduler.Effects.{scheduled_commands, execute_act, interrupt_act}
use lateral_root.Scheduler.Effects.Run.{end_all-foldl, execute_all-foldl}
use lateral_root.Scheduler.Effects.Add.{add_command-world}
use lateral_root.Scheduler.Reach.{Reach-exclusive, Reach-associated}
use lateral_root.Scheduler.Masters.{
  Living, begins, ends, Lifetimes, nobody, and_then, count_masters, flag, Lifetimes-OneMaster,
}
use lateral_root.Examples.Robot.{
  Event, asked, robot, statics, three, three-IsValid, robot-WellFormed, fresh, running,
  running-Reach, running-Inv, both, both-Reach,
}

-- A scheduler that runs the command 0 schedules the command 2, which takes its subsystem.
run_two : (add_command robot statics (some 2) running).added_command_bitmap ≡ 4
unfolding testbit add_command register_subsystem one_hot construct_scheduler add_ready_command
    schedule interrupt_all for_each interrupt remove_command unschedule complement
run_two = refl

running_zero : IsScheduled robot statics running 0
unfolding testbit add_command register_subsystem one_hot construct_scheduler add_ready_command
    schedule interrupt_all for_each interrupt remove_command unschedule complement
running_zero = (refl, refl)

both_zero : IsScheduled robot statics both 0
unfolding testbit add_command register_subsystem one_hot construct_scheduler add_ready_command
    schedule interrupt_all for_each interrupt remove_command unschedule complement
both_zero = (refl, refl)

both_one : IsScheduled robot statics both 1
unfolding testbit add_command register_subsystem one_hot construct_scheduler add_ready_command
    schedule interrupt_all for_each interrupt remove_command unschedule complement
both_one = (refl, refl)

Reach-exclusive_example : testbit (robot.requirements 1) 0 ≡ false
unfolding testbit
Reach-exclusive_example =
    Reach-exclusive robot-WellFormed 0 1 0 both-Reach both_zero both_one (λ e. absurd (omega arith))
      refl

running_connected : safe_disconnected robot running ≡ false
unfolding testbit add_command register_subsystem one_hot construct_scheduler add_ready_command
    schedule interrupt_all for_each interrupt remove_command unschedule complement
running_connected = refl

running_registered : requirements_registered robot 3 running ≡ true
unfolding testbit add_command register_subsystem one_hot construct_scheduler add_ready_command
    schedule interrupt_all for_each interrupt remove_command unschedule complement
running_registered = refl

Reach-associated_example :
    (testbit running.subsystems_associated_with_command_bitmap 0 ≡ true)
    ↔ ((c : ℕ) × IsScheduled robot statics running c × Requires robot statics c 0)
Reach-associated_example = Reach-associated robot-WellFormed running 0 running-Reach

add_command-schedules_example :
    IsScheduled robot statics (add_command robot statics (some 2) running) 2
    × ((d : ℕ)
        → d ≢ 2
        → IsScheduled robot statics (add_command robot statics (some 2) running) d
          ↔ (IsScheduled robot statics running d × IsApart robot statics 3 running d))
add_command-schedules_example =
    add_command-schedules robot-WellFormed 2 running (running.world ++ asked 2 ∷ []) running-Inv
      refl running_connected refl running_registered

add_command-world_example :
    (add_command robot statics (some 2) running).world
    ≡ robot.initialize 2 (
        foldl
          (λ w d. interrupt_act robot 3 d w)
          (running.world ++ asked 2 ∷ [])
          (scheduled_commands robot statics running))
add_command-world_example =
    add_command-world robot-WellFormed 2 running (running.world ++ asked 2 ∷ []) running-Inv
      running_connected refl running_registered

execute_all-foldl_example :
    (execute_all robot statics running).world
    ≡ foldl (λ w c. execute_act robot c w) running.world (scheduled_commands robot statics running)
execute_all-foldl_example = execute_all-foldl robot-WellFormed running running-Inv

end_all-foldl_example :
    (end_all robot statics running).world
    ≡ foldl (λ w c. robot.end c true w) running.world (scheduled_commands robot statics running)
end_all-foldl_example = end_all-foldl robot-WellFormed running running-Inv

end_all-ends_example :
    ((end_all robot statics running).added_command_bitmap ≡ 0)
    × ((end_all robot statics running).subsystems_associated_with_command_bitmap ≡ 0)
    × Inv robot statics (end_all robot statics running)
end_all-ends_example = end_all-ends robot-WellFormed running running-Inv

construct_lem_example :
    (i : ℕ) × (r' : Registry) × (construct (some 7) three ≡ ok (some i, r'))
    × Constructed 7 i three r'
construct_lem_example = construct_lem 7 three-IsValid (omega arith)

-- A registrar whose highest index is in use.
abbrev full : Registry
full = record { slots = replicate 64 (some 5); max_index = 64 }

abbrev emptied : Registry
emptied = record { slots = some 5 ∷ none ∷ replicate 62 (some 5); max_index = 64 }

emptied_lem : destruct (some 5) (some 1) full ≡ ok emptied
unfolding destruct
emptied_lem = refl

visited : for_each (λ (s : List ℕ). 10) 4 (λ i s. s ++ i ∷ []) [] ≡ 1 ∷ 3 ∷ []
unfolding for_each one_hot
visited = refl

-- The master scheduler ends, and another one is constructed.
abbrev alive : Living (List Event)
alive = record {
  schedulers =
      (construct_scheduler true 0
        (destruct_scheduler fresh (construct_scheduler {W = List Event} true 0 statics []).1) []).0
      ∷ [];
  statics =
      (construct_scheduler {W = List Event} true 0
        (destruct_scheduler fresh (construct_scheduler {W = List Event} true 0 statics []).1) []).1;
}

alive-Lifetimes : Lifetimes statics alive
alive-Lifetimes =
    and_then
      (and_then (and_then nobody (begins _ true 0 []))
        (ends [] [] fresh (construct_scheduler {W = List Event} true 0 statics []).1))
      (begins _ true 0 [])

Lifetimes-OneMaster_example :
    (count_masters alive.schedulers ≡ flag alive.statics.master_scheduler_exists)
    × (count_masters alive.schedulers ≤ 1)
Lifetimes-OneMaster_example = Lifetimes-OneMaster statics refl alive alive-Lifetimes
