-- ===== src/Scheduler/Effects/Add.antt =====
-- Which methods `addCommand` calls.
use Prim.Native.Nat.{bit_and}
use lateral_root.Prelude.{ℕ, ◌≡◌, refl, ap, true, false, some, foldl, ◌!=◌, Bool-cases, inl, inr}
use lateral_root.Objects.{Objects, Statics}
use lateral_root.Scheduler.{Scheduler}
use lateral_root.Scheduler.Commands.{
  dereference, safe_disconnected, requirements_registered, unschedule, interrupt, interrupt_all,
  schedule, add_ready_command, add_command,
}
use lateral_root.Scheduler.Invariant.{WellFormed, IsScheduled, Inv}
use lateral_root.Scheduler.Invariant.Remove.{unschedule-Inv}
use lateral_root.Scheduler.Effects.{interrupt_act, scheduled_commands, Acts, for_each-foldl}
use lateral_root.Scheduler.Effects.Run.{unschedule-local, remove_command-unschedule}

module _ {W : Type 0} {o : Objects W} {g : Statics} (f : WellFormed o g) where
  interrupted :
      (required c : ℕ) (t : Scheduler W)
      → IsScheduled o g t c
      → (bit_and (o.requirements c) required != 0) ≡ true
      → interrupt o required c t ≡ unschedule o c true t
  unfolding interrupt
  interrupted required c t here e = rw e (remove_command-unschedule f c true t here)

  spared :
      (required c : ℕ) (t : Scheduler W)
      → (bit_and (o.requirements c) required != 0) ≡ false
      → interrupt o required c t ≡ t
  unfolding interrupt
  spared required c t e = rw e

  interrupt-Acts : (required : ℕ) → Acts o g (interrupt_act o required) (interrupt o required)
  interrupt-Acts required = record {
    acts = λ c t v here. elim (Bool-cases (bit_and (o.requirements c) required != 0)) [
      | inl e ↦ rw (e, interrupted required c t here e) (unfold unschedule in refl)
      | inr e ↦ rw (e, spared required c t e)
    ];
    keeps = λ c t v here. elim (Bool-cases (bit_and (o.requirements c) required != 0)) [
      | inl e ↦ rw (interrupted required c t here e) (unschedule-Inv f t c true v here)
      | inr e ↦ rw (spared required c t e) v
    ];
    local = λ c j t v here ne. elim (Bool-cases (bit_and (o.requirements c) required != 0)) [
      | inl e ↦ rw (interrupted required c t here e) (unschedule-local f c j true t v here ne)
      | inr e ↦ rw (spared required c t e)
    ];
  }

  -- `addCommand` ends the scheduled commands that share a subsystem with the new one, each once, as
  -- interrupted and by increasing identifier, and initializes the new command after that; no other
  -- method is called. The registrars are well formed, the invariant holds, and the command is ready,
  -- with its requirements registered and the robot connected.
  pub add_command-world :
      (c : ℕ) (s : Scheduler W) (w : W)
      → Inv o g s
      → safe_disconnected o s ≡ false
      → o.is_ready c s.world ≡ (true, w)
      → requirements_registered o (o.requirements c) s ≡ true
      → (add_command o g (some c) s).world
        ≡ o.initialize c
            (foldl (λ w d. interrupt_act o (o.requirements c) d w) w (scheduled_commands o g s))
  unfolding add_command add_ready_command schedule interrupt_all
  add_command-world c s w v connected ready ok =
      rw (connected, ready, ok)
        (ap (o.initialize c) (
          for_each-foldl f (interrupt_act o (o.requirements c)) (interrupt o (o.requirements c))
            (interrupt-Acts (o.requirements c)) _
            (λ i d t e. ap (λ p. dereference p (interrupt o (o.requirements c)) t) e)
            (record s { world = w }) v))
