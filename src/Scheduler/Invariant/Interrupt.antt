-- ===== src/Scheduler/Invariant/Interrupt.antt =====
-- The loop of `addCommand` that interrupts commands: the invariant, and which commands stay scheduled.
use Prim.Native.Nat.{bit_and}
use native.Mathlib.Decide.{ℕ_discrete}
use lateral_root.Prelude.{
  ℕ, suc, ◌<◌, ◌≡◌, ◌↔◌, refl, sym, ap, subst, ◌∙◌, true, false, some, arith, ◌!=◌, Bool-cases, inl,
  inr,
}
use lateral_root.Bits.{testbit}
use lateral_root.Bits.Sets.{bit_and-one_hot_ne, bit_and-eq_zero}
use lateral_root.Registry.{at}
use lateral_root.Iterator.{has_bit}
use lateral_root.Iterator.Scan.{for_each_rule}
use lateral_root.Objects.{Objects, Statics}
use lateral_root.Scheduler.{Scheduler}
use lateral_root.Scheduler.Commands.{
  dereference, unschedule, remove_command, interrupt, interrupt_all,
}
use lateral_root.Scheduler.Invariant.{WellFormed, IsConstructed, IsScheduled, Inv}
use lateral_root.Scheduler.Invariant.Commands.{same_id, still, stays, unschedule-Consistent}
use lateral_root.Scheduler.Invariant.Remove.{scheduled-testbit}

module _ {W : Type 0} (o : Objects W) (g : Statics) (required : ℕ) (s : Scheduler W) where
  -- The command uses none of the subsystems that the new one uses.
  abbrev pub IsApart : ℕ → Type 0
  IsApart d = (k : ℕ) → testbit required k ≡ true → testbit (o.requirements d) k ≡ false

  pub record Swept (i : ℕ) (t : Scheduler W) : Type 0 where
    pub inv : Inv o g t
    pub same_registered : t.registered_subsystem_bitmap ≡ s.registered_subsystem_bitmap
    pub same_errors : t.errors ≡ s.errors
    pub fewer : (d : ℕ) → IsScheduled o g t d → IsScheduled o g s d
    pub apart : (d : ℕ) → IsScheduled o g t d → o.command_id d < i → IsApart d
    pub kept : (d : ℕ) → IsScheduled o g s d → IsApart d → IsScheduled o g t d

module _ {W : Type 0} {o : Objects W} {g : Statics} (f : WellFormed o g) (required : ℕ)
    (s : Scheduler W) where
  -- The command at the index is apart, and stays.
  pass :
      (i : ℕ) (t : Scheduler W)
      → Swept o g required s i t
      → ((d : ℕ) → IsScheduled o g t d → o.command_id d ≡ i → IsApart o g required s d)
      → Swept o g required s (suc i) t
  pass i t w now = record {
    inv = w.inv;
    same_registered = w.same_registered;
    same_errors = w.same_errors;
    fewer = w.fewer;
    apart = λ d sd lt. elim (ℕ_discrete (o.command_id d) i) [
      | yes e ↦ now d sd e
      | no ne ↦ w.apart d sd (omega arith)
    ];
    kept = w.kept;
  }

  -- The command at the index is removed.
  drop :
      (i c : ℕ) (t : Scheduler W)
      → Swept o g required s i t
      → at g.commands i ≡ some c
      → testbit t.added_command_bitmap i ≡ true
      → ¬ IsApart o g required s c
      → Swept o g required s (suc i) (unschedule o c true t)
  unfolding unschedule
  drop i c t w at_i added clash =
      let c_id : o.command_id c ≡ i = f.command_ids i c at_i in
      let here : IsScheduled o g t c = (rw c_id at_i, rw c_id added) in
      record {
        inv = unschedule-Consistent f c w.inv here;
        same_registered = w.same_registered;
        same_errors = w.same_errors;
        fewer = λ d sd. w.fewer d (still f c w.inv here d sd).0;
        apart = λ d sd lt.
            let (before, ne) = still f c w.inv here d sd in w.apart d before (omega arith);
        kept = λ d sd apart.
            stays f c w.inv here d (w.kept d sd apart)
              (λ e. clash (subst (IsApart o g required s) (sym e) apart));
      }

  IsApart-iff :
      (c : ℕ) → ((bit_and (o.requirements c) required != 0) ≡ false) ↔ IsApart o g required s c
  IsApart-iff c = (
    (λ e k q.
        let clear = (bit_and-eq_zero (o.requirements c) required).0 (ground arith) in
        elim (Bool-cases (testbit (o.requirements c) k)) [ inl b ↦ cc (clear k b) | inr b ↦ b ]),
    (λ apart.
        let zero_and = (bit_and-eq_zero (o.requirements c) required).1 (flip apart) in
        ground arith),
  )
    where
      flip :
          IsApart o g required s c
          → (k : ℕ) → testbit (o.requirements c) k ≡ true
          → testbit required k ≡ false
      flip apart k b = elim (Bool-cases (testbit required k)) [ inl e ↦ cc (apart k e) | inr e ↦ e ]

  interrupt_step :
      (i c : ℕ) (t : Scheduler W)
      → Swept o g required s i t
      → at g.commands i ≡ some c
      → testbit t.added_command_bitmap i ≡ true
      → Swept o g required s (suc i) (interrupt o required c t)
  unfolding interrupt remove_command
  interrupt_step i c t w at_i added =
      let c_id : o.command_id c ≡ i = f.command_ids i c at_i in
      let here : IsConstructed o g c = rw c_id at_i in
      elim (Bool-cases (bit_and (o.requirements c) required != 0)) [
        | inl e ↦
            rw (e, scheduled-testbit f c t here, c_id, added)
              (drop i c t w at_i added (λ apart. cc ((IsApart-iff c).1 apart)))
        | inr e ↦ rw e (
            pass i t w (λ d sd q.
              subst (IsApart o g required s) (same_id f c d here sd.0 (c_id ∙ sym q))
                ((IsApart-iff c).0 e)))
      ]

  step_set :
      (i : ℕ) (t : Scheduler W)
      → i < g.commands.max_index
      → has_bit t.added_command_bitmap i ≡ true
      → Swept o g required s i t
      → Swept o g required s (suc i) (dereference (at g.commands i) (interrupt o required) t)
  step_set i t lt e w =
      let added =
        sym (bit_and-one_hot_ne t.added_command_bitmap i (omega (arith, f.commands_valid.bounded)))
        ∙ e in
      let (c, at_i) = w.inv.commands_held i added in rw at_i (interrupt_step i c t w at_i added)

  step_unset :
      (i : ℕ) (t : Scheduler W)
      → i < g.commands.max_index
      → has_bit t.added_command_bitmap i ≡ false
      → Swept o g required s i t
      → Swept o g required s (suc i) t
  step_unset i t lt e w =
      let unset =
        sym (bit_and-one_hot_ne t.added_command_bitmap i (omega (arith, f.commands_valid.bounded)))
        ∙ e in
      pass i t w (λ d sd q. cc (sd.1, unset, ap (testbit t.added_command_bitmap) q))

  pub interrupt_all-Swept :
      Inv o g s → Swept o g required s g.commands.max_index (interrupt_all o g required s)
  unfolding interrupt_all
  interrupt_all-Swept v = for_each_rule _ _ _ (Swept o g required s) step_set step_unset s (record {
    inv = v;
    same_registered = refl;
    same_errors = refl;
    fewer = λ d sd. sd;
    apart = λ d sd lt. absurd (omega arith);
    kept = λ d sd apart. sd;
  })
