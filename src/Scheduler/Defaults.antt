-- ===== src/Scheduler/Defaults.antt =====
-- The default commands that a run of the master scheduler starts.
pub mod Refresh
use Prim.Native.Nat.{bit_and}
use native.Mathlib.Decide.{dec_lt, ℕ_discrete}
use lateral_root.Prelude.{
  ℕ, zero, suc, ◌+◌, ◌<◌, ◌≤◌, ◌≡◌, ◌≢◌, ◌↔◌, refl, sym, ap, subst, ◌∙◌, Bool, true, false, not,
  ◌&&◌, ◌||◌, Option, none, some, arith, ◌==◌, ◌!=◌, ==_iff, Bool-cases, Option-cases, inl, inr,
  if◌then◌else◌,
}
use lateral_root.Bits.{testbit, one_hot, zero-testbit}
use lateral_root.Bits.Sets.{bit_and-one_hot_ne, testbit-one_hot}
use lateral_root.Registry.{at}
use lateral_root.Iterator.{has_bit, for_each}
use lateral_root.Iterator.Scan.{for_each_rule}
use lateral_root.Objects.{Objects, Statics}
use lateral_root.Scheduler.{Scheduler, raise_error}
use lateral_root.Scheduler.Commands.{
  dereference, safe_disconnected, is_command_scheduled, remove_command, unschedule,
  requirements_registered, add_command, add_ready_command, add_checked_command, schedule,
  interrupt_all,
}
use lateral_root.Scheduler.Run.{
  execute_command, execute_all, end_all, is_idle, note_passed, note_test, refresh_one,
  start_default, refresh_subsystem, refresh_all, run_commands, run_subsystems, check_runtime, run,
}
use lateral_root.Scheduler.Invariant.{WellFormed, IsConstructed, Requires, IsScheduled, Inv}
use lateral_root.Scheduler.Invariant.Interrupt.{IsApart, interrupt_all-Swept}
use lateral_root.Scheduler.Invariant.Add.{add_command-Inv, add_command-schedules, registered_iff}
use lateral_root.Scheduler.Invariant.Loops.{has_bit-registered}
use lateral_root.Scheduler.Invariant.Run.{run_commands-Inv, note_test-Inv, run-Inv}

-- The robot is connected, and every subsystem has a default command that is always ready and uses no
-- other subsystem.
pub record HasDefaults {W : Type 0} (o : Objects W) : Type 0 where
  pub connected : (f : ℕ) (w : W) → o.safe_disconnect f w ≡ false
  pub present : (b : ℕ) (w : W) → (d : ℕ) × (o.default_command b w ≡ some d)
  pub ready : (b d : ℕ) (w : W) → o.default_command b w ≡ some d → (o.is_ready d w).0 ≡ true
  pub own :
      (b d : ℕ) (w : W)
      → o.default_command b w ≡ some d
      → o.requirements d ≡ one_hot (o.subsystem_id b)

module _ {W : Type 0} {o : Objects W} {g : Statics} (f : WellFormed o g) (h : HasDefaults o) where
  -- What starting a default command keeps.
  pub record Kept (s t : Scheduler W) : Type 0 where
    pub inv : Inv o g t
    pub same_registered : t.registered_subsystem_bitmap ≡ s.registered_subsystem_bitmap
    pub still_used :
        (k : ℕ)
        → testbit s.subsystems_associated_with_command_bitmap k ≡ true
        → testbit t.subsystems_associated_with_command_bitmap k ≡ true

  -- The default command `d` of an idle subsystem is added.
  module _ (i b d : ℕ) (s : Scheduler W) (v : Inv o g s) (lt : i < 64) (id : o.subsystem_id b ≡ i)
      (default : o.default_command b s.world ≡ some d)
      (in_use : testbit s.registered_subsystem_bitmap i ≡ true)
      (idle : testbit s.subsystems_associated_with_command_bitmap i ≡ false) where
    required : o.requirements d ≡ one_hot i
    required = h.own b d s.world default ∙ ap one_hot id

    uses : (k : ℕ) → testbit (o.requirements d) k ≡ (i == k)
    uses k = ap (λ n. testbit n k) required ∙ testbit-one_hot i k lt

    uses_own : Requires o g d i
    uses_own = uses i ∙ (==_iff i i).1 refl

    uses_only_own : (k : ℕ) → Requires o g d k → i ≡ k
    uses_only_own k q = (==_iff i k).0 (sym (uses k) ∙ q)

    ok : requirements_registered o (o.requirements d) s ≡ true
    ok = (registered_iff f d s).1 (
      (λ k q.
          subst (λ j. testbit s.registered_subsystem_bitmap j ≡ true) (uses_only_own k q) in_use),
      λ e. cc (uses_own, ap (λ n. testbit n i) e, zero-testbit i),
    )

    here : IsConstructed o g d
    here = f.defaults b d s.world default

    ready : o.is_ready d s.world ≡ (true, (o.is_ready d s.world).1)
    ready = ap (λ (x : Bool). (x, (o.is_ready d s.world).1)) (h.ready b d s.world default)

    abbrev t : Scheduler W
    t = add_command o g (some d) s

    t-Inv : Inv o g t
    t-Inv = add_command-Inv f d s v here

    after :
        IsScheduled o g t d
        × ((c : ℕ)
            → c ≢ d
            → IsScheduled o g t c ↔ (IsScheduled o g s c × IsApart o g (o.requirements d) s c))
    after = add_command-schedules f d s (o.is_ready d s.world).1 v here (h.connected _ _) ready ok

    pub now_used : testbit t.subsystems_associated_with_command_bitmap i ≡ true
    now_used = t-Inv.covered d i after.0 uses_own

    unused : (c : ℕ) → IsScheduled o g s c → IsApart o g (o.requirements d) s c
    unused c sc k q = elim (Bool-cases (testbit (o.requirements c) k)) [
      | inl e ↦ cc (idle, v.covered c k sc e, uses_only_own k q)
      | inr e ↦ e
    ]

    still_used :
        (k : ℕ)
        → testbit s.subsystems_associated_with_command_bitmap k ≡ true
        → testbit t.subsystems_associated_with_command_bitmap k ≡ true
    still_used k e =
        let (c, sc, q) = v.used k e in
        elim (ℕ_discrete c d) [
          | yes same ↦ t-Inv.covered d k after.0 (subst (λ x. Requires o g x k) same q)
          | no ne ↦ t-Inv.covered c k ((after.1 c ne).1 (sc, unused c sc)) q
        ]

    same_registered : t.registered_subsystem_bitmap ≡ s.registered_subsystem_bitmap
    unfolding add_command add_ready_command schedule
    same_registered =
        rw (h.connected s.safe_disconnect_function s.world, ready, ok)
          (interrupt_all-Swept f (o.requirements d) (record s { world = (o.is_ready d s.world).1 })
            v).same_registered

    pub added-Kept : Kept s t
    added-Kept = record { inv = t-Inv; same_registered = same_registered; still_used = still_used }
