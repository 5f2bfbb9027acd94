-- ===== src/Scheduler/Invariant/Remove.antt =====
-- `removeCommand`: the invariant, and which commands are scheduled after it.
use lateral_root.Prelude.{ℕ, ◌≡◌, ◌≢◌, ◌↔◌, refl, sym, subst, ◌∙◌, Bool, some, Bool-cases, inl, inr}
use lateral_root.Bits.{testbit}
use lateral_root.Bits.Sets.{bit_and-one_hot_ne}
use lateral_root.Objects.{Objects, Statics}
use lateral_root.Scheduler.{Scheduler}
use lateral_root.Scheduler.Commands.{is_command_scheduled, unschedule, remove_command}
use lateral_root.Scheduler.Invariant.{WellFormed, IsConstructed, IsScheduled, Inv}
use lateral_root.Scheduler.Invariant.Commands.{index_lt, still, stays, unschedule-Consistent}

module _ {W : Type 0} {o : Objects W} {g : Statics} (f : WellFormed o g) where
  -- The test of `isCommandScheduled` is the bit of the command.
  pub scheduled-testbit :
      (c : ℕ) (s : Scheduler W)
      → IsConstructed o g c
      → is_command_scheduled o (some c) s ≡ testbit s.added_command_bitmap (o.command_id c)
  scheduled-testbit c s h =
      bit_and-one_hot_ne s.added_command_bitmap (o.command_id c) (index_lt f _ c h)

  pub unschedule-Inv :
      (s : Scheduler W) (c : ℕ) (b : Bool)
      → Inv o g s
      → IsScheduled o g s c
      → Inv o g (unschedule o c b s)
  unfolding unschedule
  unschedule-Inv s c b v h = unschedule-Consistent f c v h

  pub remove_command-Inv :
      (s : Scheduler W) (c : ℕ) (b : Bool)
      → Inv o g s
      → IsConstructed o g c
      → Inv o g (remove_command o (some c) b s)
  unfolding remove_command
  remove_command-Inv s c b v h = elim (Bool-cases (is_command_scheduled o (some c) s)) [
    | inl e ↦ rw e (unschedule-Inv s c b v (h, sym (scheduled-testbit c s h) ∙ e))
    | inr e ↦ rw e v
  ]

  -- After its removal a constructed command is not scheduled.
  pub remove_command-removes :
      (s : Scheduler W) (c : ℕ) (b : Bool)
      → Inv o g s
      → IsConstructed o g c
      → ¬ IsScheduled o g (remove_command o (some c) b s) c
  unfolding remove_command unschedule
  remove_command-removes s c b v h = elim (Bool-cases (is_command_scheduled o (some c) s)) [
    | inl e ↦ rw e (λ k. (still f c v (h, sym (scheduled-testbit c s h) ∙ e) c k).1 refl)
    | inr e ↦ rw e (λ k. cc (scheduled-testbit c s h, e, k.1))
  ]

  pub remove_command-others :
      (s : Scheduler W) (c d : ℕ) (b : Bool)
      → Inv o g s
      → IsConstructed o g c
      → c ≢ d
      → IsScheduled o g (remove_command o (some c) b s) d ↔ IsScheduled o g s d
  unfolding remove_command unschedule
  remove_command-others s c d b v h ne = elim (Bool-cases (is_command_scheduled o (some c) s)) [
    | inl e ↦
        let here : IsScheduled o g s c = (h, sym (scheduled-testbit c s h) ∙ e) in
        rw e ((λ k. (still f c v here d k).0), (λ k. stays f c v here d k ne))
    | inr e ↦ rw e ((λ k. k), (λ k. k))
  ]

  -- The loop of `addCommand` started at `s`, when the turn of index `i` comes.

  -- After the removal of a constructed command exactly the other commands that were scheduled are
  -- scheduled, if the registrars are well formed and the invariant held.
  pub remove_command-IsScheduled :
      (s : Scheduler W) (c d : ℕ) (b : Bool)
      → Inv o g s
      → IsConstructed o g c
      → IsScheduled o g (remove_command o (some c) b s) d ↔ (IsScheduled o g s d × (c ≢ d))
  remove_command-IsScheduled s c d b v h = (
    (λ sd.
        let ne : c ≢ d = λ e.
          remove_command-removes s c b v h
            (subst (IsScheduled o g (remove_command o (some c) b s)) (sym e) sd) in
        ((remove_command-others s c d b v h ne).0 sd, ne)),
    (λ p. (remove_command-others s c d b v h p.1).1 p.0),
  )
