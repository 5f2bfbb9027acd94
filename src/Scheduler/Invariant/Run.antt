-- ===== src/Scheduler/Invariant/Run.antt =====
-- `run` keeps the invariant.
use lateral_root.Prelude.{
  ℕ, Bool, true, false, arith, Bool-cases, Option-cases, inl, inr, if◌then◌else◌,
}
use lateral_root.Objects.{Objects, Statics}
use lateral_root.Scheduler.{Scheduler, raise_error}
use lateral_root.Scheduler.Commands.{safe_disconnected}
use lateral_root.Scheduler.Run.{
  execute_command, execute_all, is_idle, note_test, refresh_one, start_default, refresh_subsystem,
  refresh_all, run_commands, run_subsystems, check_runtime, run,
}
use lateral_root.Scheduler.Invariant.{WellFormed, Inv}
use lateral_root.Scheduler.Invariant.Add.{add_command-Inv}
use lateral_root.Scheduler.Invariant.Loops.{commands_loop, subsystems_loop, execute_command-Inv}
use lateral_root.Scheduler.Invariant.Disconnect.{end_all-ends}

module _ {W : Type 0} {o : Objects W} {g : Statics} (f : WellFormed o g) where
  pub note_test-Inv : (b : ℕ) (s : Scheduler W) → Inv o g s → Inv o g (note_test o g b s)
  unfolding note_test
  note_test-Inv b s v = elim (Bool-cases (is_idle o g b s)) [
    | inl idle ↦ elim (Option-cases (o.test_command b s.world)) [
      | inl e ↦ rw (idle, e) v
      | inr (t, e) ↦ elim (Bool-cases (o.is_finished t s.world)) [
        | inl done ↦ rw (idle, e, done) v
        | inr going ↦ rw (idle, e, going) v
      ]
    ]
    | inr busy ↦ rw busy v
  ]

  start_default-Inv : (b : ℕ) (s : Scheduler W) → Inv o g s → Inv o g (start_default o g b s)
  unfolding start_default
  start_default-Inv b s v = elim (Bool-cases (is_idle o g b s)) [
    | inl idle ↦ elim (Option-cases (o.default_command b s.world)) [
      | inl e ↦ rw (idle, e) v
      | inr (d, e) ↦ rw (idle, e) (add_command-Inv f d s v (f.defaults b d s.world e))
    ]
    | inr busy ↦ rw busy v
  ]

  refresh_subsystem-Inv :
      (b : ℕ) (s : Scheduler W) → Inv o g s → Inv o g (refresh_subsystem o g b s)
  unfolding refresh_subsystem refresh_one
  refresh_subsystem-Inv b s v =
      start_default-Inv b (refresh_one o g b (note_test o g b s)) (note_test-Inv b s v)

  Inv-if : (b : Bool) (s t : Scheduler W) → Inv o g s → Inv o g t → Inv o g (if b then s else t)
  Inv-if true s t v w = v
  Inv-if false s t v w = w

  pub run_commands-Inv : (s : Scheduler W) → Inv o g s → Inv o g (run_commands o g s)
  unfolding run_commands execute_all
  run_commands-Inv s v = elim (Bool-cases (safe_disconnected o s)) [
    | inl e ↦ rw e (end_all-ends f s v).2
    | inr e ↦
        rw e (commands_loop f (execute_command o g) (λ c t h w. execute_command-Inv f c t h w) s v)
  ]

  run_subsystems-Inv : (s : Scheduler W) → Inv o g s → Inv o g (run_subsystems o g s)
  unfolding run_subsystems refresh_all
  run_subsystems-Inv s v =
      Inv-if s.is_master_scheduler _ s
        (subsystems_loop f (refresh_subsystem o g) refresh_subsystem-Inv s v) v

  check_runtime-Inv :
      (start : ℕ) (s : Scheduler W) → Inv o g s → Inv o g (check_runtime o g start s)
  unfolding check_runtime raise_error
  check_runtime-Inv start s v = ground arith

  -- A run keeps the invariant, whatever the commands and subsystems do.
  pub run-Inv : (s : Scheduler W) → Inv o g s → Inv o g (run o g s)
  unfolding run
  run-Inv s v =
      check_runtime-Inv (o.time_microseconds s.world) (run_subsystems o g (run_commands o g s))
        (run_subsystems-Inv (run_commands o g s) (run_commands-Inv s v))
