-- ===== src/Scheduler/Invariant/Disconnect.antt =====
-- A run while safe disconnected ends every command.
use native.Mathlib.Decide.{ℕ_discrete}
use lateral_root.Prelude.{
  ℕ, suc, ◌<◌, ◌≡◌, ◌≢◌, sym, ap, subst, ◌∙◌, true, false, some, arith, Bool-cases, inl, inr,
}
use lateral_root.Bits.{testbit, zero-testbit, eq_of_testbit}
use lateral_root.Registry.{at}
use lateral_root.Iterator.{has_bit}
use lateral_root.Iterator.Scan.{for_each_rule}
use lateral_root.Objects.{Objects, Statics}
use lateral_root.Scheduler.{Scheduler}
use lateral_root.Scheduler.Commands.{remove_command}
use lateral_root.Scheduler.Run.{end_all}
use lateral_root.Scheduler.Invariant.{WellFormed, IsConstructed, IsScheduled, Inv}
use lateral_root.Scheduler.Invariant.Commands.{index_lt_max, same_id}
use lateral_root.Scheduler.Invariant.Remove.{
  remove_command-Inv, remove_command-removes, remove_command-others,
}
use lateral_root.Scheduler.Invariant.Loops.{held-IsConstructed, has_bit-added}

module _ {W : Type 0} {o : Objects W} {g : Statics} (f : WellFormed o g) where
  -- What `end_all` has done when the turn of index `i` comes.
  record Ended (i : ℕ) (t : Scheduler W) : Type 0 where
    inv : Inv o g t
    gone : (d : ℕ) → IsScheduled o g t d → o.command_id d < i → ⊥

  end_one :
      (i c : ℕ) (t : Scheduler W)
      → at g.commands i ≡ some c
      → Ended i t
      → Ended (suc i) (remove_command o (some c) true t)
  end_one i c t at_i w = record {
    inv = remove_command-Inv f t c true w.inv here;
    gone = λ d sd q. elim (ℕ_discrete c d) [
      | yes same ↦
          remove_command-removes f t c true w.inv here
            (subst (IsScheduled o g (remove_command o (some c) true t)) (sym same) sd)
      | no ne ↦
          w.gone d ((remove_command-others f t c d true w.inv here ne).0 sd)
            (below d q (λ e. ne (same_id f c d here sd.0 (f.command_ids i c at_i ∙ sym e))))
    ];
  }
    where
      here : IsConstructed o g c
      here = held-IsConstructed f i c at_i

      below : (d : ℕ) → o.command_id d < suc i → o.command_id d ≢ i → o.command_id d < i
      below d q ne = omega arith

  end_set :
      (i : ℕ) (t : Scheduler W)
      → i < g.commands.max_index
      → has_bit t.added_command_bitmap i ≡ true
      → Ended i t
      → Ended (suc i) (remove_command o (at g.commands i) true t)
  end_set i t lt e w =
      let (c, at_i) = w.inv.commands_held i (sym (has_bit-added f i t lt) ∙ e) in
      rw at_i (end_one i c t at_i w)

  end_unset :
      (i : ℕ) (t : Scheduler W)
      → i < g.commands.max_index
      → has_bit t.added_command_bitmap i ≡ false
      → Ended i t
      → Ended (suc i) t
  end_unset i t lt e w = record {
    inv = w.inv;
    gone = λ d sd q. elim (ℕ_discrete (o.command_id d) i) [
      | yes same ↦
          cc (sd.1, sym (has_bit-added f i t lt) ∙ e, ap (testbit t.added_command_bitmap) same)
      | no ne ↦ w.gone d sd (omega arith)
    ];
  }

  end_all-Ended : (s : Scheduler W) → Inv o g s → Ended g.commands.max_index (end_all o g s)
  unfolding end_all
  end_all-Ended s v =
      for_each_rule _ _ _ Ended end_set end_unset s
        (record { inv = v; gone = λ d sd q. absurd (omega arith) })

  none_added :
      (s : Scheduler W)
      → Inv o g s
      → ((d : ℕ) → ¬ IsScheduled o g s d)
      → (i : ℕ) → testbit s.added_command_bitmap i ≡ false
  none_added s v gone i = elim (Bool-cases (testbit s.added_command_bitmap i)) [
    | inl set ↦
        let (c, at_i) = v.commands_held i set in
        absurd (gone c (held-IsConstructed f i c at_i, rw (f.command_ids i c at_i) set))
    | inr unset ↦ unset
  ]

  none_associated :
      (s : Scheduler W)
      → Inv o g s
      → ((d : ℕ) → ¬ IsScheduled o g s d)
      → (k : ℕ) → testbit s.subsystems_associated_with_command_bitmap k ≡ false
  none_associated s v gone k =
      elim (Bool-cases (testbit s.subsystems_associated_with_command_bitmap k)) [
        | inl set ↦ let (c, sc, q) = v.used k set in absurd (gone c sc)
        | inr unset ↦ unset
      ]

  -- After the loop of a safe disconnected run no command is scheduled, no subsystem is associated
  -- with a command, and the invariant holds, if the registrars are well formed and the invariant
  -- held before.
  pub end_all-ends :
      (s : Scheduler W)
      → Inv o g s
      → ((end_all o g s).added_command_bitmap ≡ 0)
        × ((end_all o g s).subsystems_associated_with_command_bitmap ≡ 0)
        × Inv o g (end_all o g s)
  end_all-ends s v =
      let w = end_all-Ended s v in
      let gone : (d : ℕ) → ¬ IsScheduled o g (end_all o g s) d =
        λ d sd. w.gone d sd (index_lt_max f _ d sd.0) in
      (
        eq_of_testbit _ 0 (λ i. none_added (end_all o g s) w.inv gone i ∙ sym (zero-testbit i)),
        eq_of_testbit _ 0
            (λ k. none_associated (end_all o g s) w.inv gone k ∙ sym (zero-testbit k)),
        w.inv,
      )
