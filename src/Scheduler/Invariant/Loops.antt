-- ===== src/Scheduler/Invariant/Loops.antt =====
-- The loops over the registered commands and subsystems keep the invariant if their bodies do.
use lateral_root.Prelude.{ℕ, ◌<◌, ◌≡◌, sym, ◌∙◌, true, false, some, arith, Bool-cases, inl, inr}
use lateral_root.Bits.{testbit}
use lateral_root.Bits.Sets.{bit_and-one_hot_ne}
use lateral_root.Registry.{at}
use lateral_root.Iterator.{has_bit, for_each}
use lateral_root.Iterator.Scan.{for_each_rule}
use lateral_root.Objects.{Objects, Statics}
use lateral_root.Scheduler.{Scheduler}
use lateral_root.Scheduler.Commands.{dereference}
use lateral_root.Scheduler.Run.{execute_command}
use lateral_root.Scheduler.Invariant.{WellFormed, IsConstructed, Inv}
use lateral_root.Scheduler.Invariant.Remove.{remove_command-Inv}

module _ {W : Type 0} {o : Objects W} {g : Statics} (f : WellFormed o g) where
  -- A command found at an index of the registrar is constructed.
  pub held-IsConstructed : (i c : ℕ) → at g.commands i ≡ some c → IsConstructed o g c
  held-IsConstructed i c e = rw (f.command_ids i c e) e

  pub has_bit-added :
      (i : ℕ) (s : Scheduler W)
      → i < g.commands.max_index
      → has_bit s.added_command_bitmap i ≡ testbit s.added_command_bitmap i
  has_bit-added i s lt =
      bit_and-one_hot_ne s.added_command_bitmap i (omega (arith, f.commands_valid.bounded))

  pub has_bit-registered :
      (i : ℕ) (s : Scheduler W)
      → i < g.subsystems.max_index
      → has_bit s.registered_subsystem_bitmap i ≡ testbit s.registered_subsystem_bitmap i
  has_bit-registered i s lt =
      bit_and-one_hot_ne s.registered_subsystem_bitmap i (omega (arith, f.subsystems_valid.bounded))

  -- A loop over the commands keeps the invariant if its body does at every constructed command.
  pub commands_loop :
      (body : ℕ → Scheduler W → Scheduler W)
      → ((c : ℕ) (s : Scheduler W) → IsConstructed o g c → Inv o g s → Inv o g (body c s))
      → (s : Scheduler W) → Inv o g s
      → Inv o g (
          for_each
            (λ t. t.added_command_bitmap)
            g.commands.max_index
            (λ i. dereference (at g.commands i) body)
            s)
  commands_loop body keep s v = for_each_rule _ _ _ (λ _ t. Inv o g t) set (λ i t lt e w. w) s v
    where
      set :
          (i : ℕ) (t : Scheduler W)
          → i < g.commands.max_index
          → has_bit t.added_command_bitmap i ≡ true
          → Inv o g t
          → Inv o g (dereference (at g.commands i) body t)
      set i t lt e w =
          let (c, at_i) = w.commands_held i (sym (has_bit-added i t lt) ∙ e) in
          rw at_i (keep c t (held-IsConstructed i c at_i) w)

  pub subsystems_loop :
      (body : ℕ → Scheduler W → Scheduler W)
      → ((b : ℕ) (s : Scheduler W) → Inv o g s → Inv o g (body b s))
      → (s : Scheduler W) → Inv o g s
      → Inv o g (
          for_each
            (λ t. t.registered_subsystem_bitmap)
            g.subsystems.max_index
            (λ i. dereference (at g.subsystems i) body)
            s)
  subsystems_loop body keep s v = for_each_rule _ _ _ (λ _ t. Inv o g t) set (λ i t lt e w. w) s v
    where
      set :
          (i : ℕ) (t : Scheduler W)
          → i < g.subsystems.max_index
          → has_bit t.registered_subsystem_bitmap i ≡ true
          → Inv o g t
          → Inv o g (dereference (at g.subsystems i) body t)
      set i t lt e w =
          let (b, at_i) = w.subsystems_held i (sym (has_bit-registered i t lt) ∙ e) in
          rw at_i (keep b t w)

  pub execute_command-Inv :
      (c : ℕ) (s : Scheduler W)
      → IsConstructed o g c
      → Inv o g s
      → Inv o g (execute_command o g c s)
  unfolding execute_command
  execute_command-Inv c s h v = elim (Bool-cases (o.is_finished c (o.execute c s.world))) [
    | inl e ↦ rw e (remove_command-Inv f (record s { world = o.execute c s.world }) c false v h)
    | inr e ↦ rw e v
  ]
