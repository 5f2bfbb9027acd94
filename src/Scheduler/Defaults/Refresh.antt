-- ===== src/Scheduler/Defaults/Refresh.antt =====
-- The loop over the subsystems in a run starts a default command for every idle one.
use native.Mathlib.Decide.{dec_lt, ℕ_discrete}
use lateral_root.Prelude.{
  ℕ, suc, ◌<◌, ◌≡◌, refl, sym, ap, subst, ◌∙◌, true, false, Option, none, some, arith, Bool-cases,
  Option-cases, inl, inr, if◌then◌else◌,
}
use lateral_root.Bits.{testbit}
use lateral_root.Bits.Sets.{bit_and-one_hot_ne}
use lateral_root.Registry.{at}
use lateral_root.Iterator.{has_bit}
use lateral_root.Iterator.Scan.{for_each_rule}
use lateral_root.Objects.{Objects, Statics}
use lateral_root.Scheduler.{Scheduler, raise_error}
use lateral_root.Scheduler.Commands.{dereference, remove_command, unschedule}
use lateral_root.Scheduler.Run.{
  execute_command, execute_all, is_idle, note_passed, note_test, refresh_one, start_default,
  refresh_subsystem, refresh_all, run_commands, run_subsystems, check_runtime, run,
}
use lateral_root.Scheduler.Invariant.{WellFormed, Requires, IsScheduled, Inv}
use lateral_root.Scheduler.Invariant.Loops.{has_bit-registered}
use lateral_root.Scheduler.Invariant.Run.{run_commands-Inv, note_test-Inv, run-Inv}
use lateral_root.Scheduler.Defaults.{HasDefaults, Kept, added-Kept, now_used}

module _ {W : Type 0} {o : Objects W} {g : Statics} (f : WellFormed o g) (h : HasDefaults o) where
  Kept-refl : (s : Scheduler W) → Inv o g s → Kept f h s s
  Kept-refl s v = record { inv = v; same_registered = refl; still_used = λ k e. e }

  -- The turn of a registered subsystem.
  module _ (i b : ℕ) (s : Scheduler W) (v : Inv o g s) (lt : i < 64) (id : o.subsystem_id b ≡ i)
      (in_use : testbit s.registered_subsystem_bitmap i ≡ true) where
    start_default-Kept :
        Kept f h s (start_default o g b s)
        × (testbit (start_default o g b s).subsystems_associated_with_command_bitmap i ≡ true)
    unfolding start_default
    start_default-Kept = elim (Bool-cases (testbit s.subsystems_associated_with_command_bitmap i)) [
      | inl busy ↦ rw (not_idle busy) (Kept-refl s v, busy)
      | inr idle ↦
          let (d, e) = h.present b s.world in
          rw (is_idle_true idle, e)
            (
              added-Kept f h i b d s v lt id e in_use idle,
              now_used f h i b d s v lt id e in_use idle,
            )
    ]
      where
        tested :
            has_bit s.subsystems_associated_with_command_bitmap (o.subsystem_id b)
            ≡ testbit s.subsystems_associated_with_command_bitmap i
        tested =
            ap (has_bit s.subsystems_associated_with_command_bitmap) id
            ∙ bit_and-one_hot_ne s.subsystems_associated_with_command_bitmap i lt

        not_idle :
            testbit s.subsystems_associated_with_command_bitmap i ≡ true → is_idle o g b s ≡ false
        not_idle busy = rw (h.connected s.safe_disconnect_function s.world, tested, busy)

        is_idle_true :
            testbit s.subsystems_associated_with_command_bitmap i ≡ false → is_idle o g b s ≡ true
        is_idle_true idle = rw (h.connected s.safe_disconnect_function s.world, tested, idle)

  note_test-same :
      (b : ℕ) (s : Scheduler W)
      → ((note_test o g b s).subsystems_associated_with_command_bitmap
          ≡ s.subsystems_associated_with_command_bitmap)
        × ((note_test o g b s).registered_subsystem_bitmap ≡ s.registered_subsystem_bitmap)
  unfolding note_test note_passed
  note_test-same b s = elim (Bool-cases (is_idle o g b s)) [
    | inl idle ↦ elim (Option-cases (o.test_command b s.world)) [
      | inl e ↦ rw (idle, e) (refl, refl)
      | inr (t, e) ↦ elim (Bool-cases (o.is_finished t s.world)) [
        | inl done ↦ rw (idle, e, done) (refl, refl)
        | inr going ↦ rw (idle, e, going) (refl, refl)
      ]
    ]
    | inr busy ↦ rw busy (refl, refl)
  ]

  refresh_subsystem-Kept :
      (i b : ℕ) (s : Scheduler W)
      → Inv o g s
      → i < 64
      → o.subsystem_id b ≡ i
      → testbit s.registered_subsystem_bitmap i ≡ true
      → Kept f h s (refresh_subsystem o g b s)
        × (testbit (refresh_subsystem o g b s).subsystems_associated_with_command_bitmap i ≡ true)
  unfolding refresh_subsystem refresh_one
  refresh_subsystem-Kept i b s v lt id in_use =
      let (same_associated, same) = note_test-same b s in
      let (kept, used) =
        start_default-Kept i b (refresh_one o g b (note_test o g b s)) (note_test-Inv f b s v) lt id
          (ap (λ n. testbit n i) same ∙ in_use) in
      (
        record {
          inv = kept.inv;
          same_registered = kept.same_registered ∙ same;
          still_used = λ k e. kept.still_used k (ap (λ n. testbit n k) same_associated ∙ e);
        },
        used,
      )

  -- What the loop over the subsystems has done when the turn of index `i` comes.
  record Started (s : Scheduler W) (i : ℕ) (t : Scheduler W) : Type 0 where
    inv : Inv o g t
    same_registered : t.registered_subsystem_bitmap ≡ s.registered_subsystem_bitmap
    used :
        (k : ℕ)
        → k < i
        → testbit s.registered_subsystem_bitmap k ≡ true
        → testbit t.subsystems_associated_with_command_bitmap k ≡ true

  refresh_all-Started :
      (s : Scheduler W) → Inv o g s → Started s g.subsystems.max_index (refresh_all o g s)
  unfolding refresh_all
  refresh_all-Started s v =
      for_each_rule _ _ _ (Started s) set unset s
        (record { inv = v; same_registered = refl; used = λ k l e. absurd (omega arith) })
    where
      set :
          (i : ℕ) (t : Scheduler W)
          → i < g.subsystems.max_index
          → has_bit t.registered_subsystem_bitmap i ≡ true
          → Started s i t
          → Started s (suc i) (dereference (at g.subsystems i) (refresh_subsystem o g) t)
      set i t lt e w =
          let bit_set = sym (has_bit-registered f i t lt) ∙ e in
          let (b, at_i) = w.inv.subsystems_held i bit_set in
          let (kept, used) =
            refresh_subsystem-Kept i b t w.inv (omega (arith, lt, f.subsystems_valid.bounded))
              (f.subsystem_ids i b at_i) bit_set in
          rw at_i (record {
            inv = kept.inv;
            same_registered = kept.same_registered ∙ w.same_registered;
            used = λ k l q. elim (ℕ_discrete i k) [
              | yes same ↦
                  subst
                    (λ j.
                      testbit (refresh_subsystem o g b t).subsystems_associated_with_command_bitmap
                        j
                      ≡ true)
                    same used
              | no ne ↦ kept.still_used k (w.used k (omega arith) q)
            ];
          })

      unset :
          (i : ℕ) (t : Scheduler W)
          → i < g.subsystems.max_index
          → has_bit t.registered_subsystem_bitmap i ≡ false
          → Started s i t
          → Started s (suc i) t
      unset i t lt e w = record {
        inv = w.inv;
        same_registered = w.same_registered;
        used = λ k l q. elim (ℕ_discrete i k) [
          | yes same ↦
              cc (has_bit-registered f i t lt, e, ap (λ n. testbit n i) w.same_registered, q, same)
          | no ne ↦ w.used k (omega arith) q
        ];
      }

  -- Executing the commands leaves what a scheduler is responsible for.
  abbrev Same : Scheduler W → Scheduler W → Type 0
  Same s t =
      (t.is_master_scheduler ≡ s.is_master_scheduler)
      × (t.registered_subsystem_bitmap ≡ s.registered_subsystem_bitmap)

  execute_command-Same : (c : ℕ) (s : Scheduler W) → Same s (execute_command o g c s)
  unfolding execute_command remove_command unschedule
  execute_command-Same c s = elim (Bool-cases (o.is_finished c (o.execute c s.world))) [
    | inl done ↦ elim (Bool-cases (has_bit s.added_command_bitmap (o.command_id c))) [
      | inl e ↦ rw (done, e) (refl, refl)
      | inr e ↦ rw (done, e) (refl, refl)
    ]
    | inr going ↦ rw going (refl, refl)
  ]

  dereference-Same :
      (p : Option ℕ) (s : Scheduler W) → Same s (dereference p (execute_command o g) s)
  dereference-Same none s = (refl, refl)
  dereference-Same (some c) s = execute_command-Same c s

  run_commands-Same : (s : Scheduler W) → Same s (run_commands o g s)
  unfolding run_commands execute_all
  run_commands-Same s = rw (h.connected s.safe_disconnect_function s.world) (
      for_each_rule _ _ _ (λ i t. Same s t)
        (λ i t lt e w.
          let step = dereference-Same (at g.commands i) t in (step.0 ∙ w.0, step.1 ∙ w.1))
        (λ i t lt e w. w) s (refl, refl))

  -- The time that a run takes only matters for the errors.
  check_runtime-same :
      (start : ℕ) (s : Scheduler W)
      → ((check_runtime o g start s).registered_subsystem_bitmap ≡ s.registered_subsystem_bitmap)
        × ((check_runtime o g start s).subsystems_associated_with_command_bitmap
            ≡ s.subsystems_associated_with_command_bitmap)
  unfolding check_runtime raise_error
  check_runtime-same start s = (ground arith, ground arith)

  subsystem_lt :
      (t : Scheduler W) (k : ℕ)
      → Inv o g t
      → testbit t.registered_subsystem_bitmap k ≡ true
      → k < g.subsystems.max_index
  subsystem_lt t k v e =
      let (b, at_k) = v.subsystems_held k e in
      elim (dec_lt k g.subsystems.max_index) [
        | yes lt ↦ lt
        | no ge ↦ cc (f.subsystems_valid.free k (omega arith), at_k)
      ]

  -- If the robot stays connected, and every subsystem has a default command that is always ready and
  -- uses no other subsystem, then after a run of the master scheduler every registered subsystem is used
  -- by a scheduled command. The registrars are well formed and the invariant holds.
  pub run-uses_all :
      (s : Scheduler W) (k : ℕ)
      → Inv o g s
      → s.is_master_scheduler ≡ true
      → testbit s.registered_subsystem_bitmap k ≡ true
      → (c : ℕ) × IsScheduled o g (run o g s) c × Requires o g c k
  unfolding run run_subsystems
  run-uses_all s k v master in_use =
      let w = refresh_all-Started (run_commands o g s) (run_commands-Inv f s v) in
      let reached = ap (λ n. testbit n k) (w.same_registered ∙ (run_commands-Same s).1) ∙ in_use in
      (run-Inv f s v).used k (
        ap (λ n. testbit n k) same_associated
        ∙ w.used k (subsystem_lt (refresh_all o g (run_commands o g s)) k w.inv reached)
            (ap (λ n. testbit n k) (run_commands-Same s).1 ∙ in_use))
    where
      refreshed : run_subsystems o g (run_commands o g s) ≡ refresh_all o g (run_commands o g s)
      refreshed =
          ap (λ b. if b then refresh_all o g (run_commands o g s) else run_commands o g s)
            ((run_commands-Same s).0 ∙ master)

      same_associated :
          (run o g s).subsystems_associated_with_command_bitmap
          ≡ (refresh_all o g (run_commands o g s)).subsystems_associated_with_command_bitmap
      same_associated =
          (check_runtime-same (o.time_microseconds s.world)
            (run_subsystems o g (run_commands o g s))).1
          ∙ ap (λ t. t.subsystems_associated_with_command_bitmap) refreshed
