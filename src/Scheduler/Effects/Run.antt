-- ===== src/Scheduler/Effects/Run.antt =====
-- Which methods the loops of `run` over the commands call.
use lateral_root.Prelude.{
  ℕ, ◌≡◌, ◌≢◌, refl, ap, ◌∙◌, Bool, true, false, some, foldl, arith, Bool-cases, inl, inr,
}
use lateral_root.Bits.{testbit, one_hot}
use lateral_root.Bits.Sets.{testbit-clear, testbit-one_hot, one_hot-lt}
use lateral_root.Objects.{Objects, Statics}
use lateral_root.Scheduler.{Scheduler}
use lateral_root.Scheduler.Commands.{dereference, unschedule, remove_command}
use lateral_root.Scheduler.Run.{execute_command, execute_all, end_all}
use lateral_root.Scheduler.Invariant.{WellFormed, IsScheduled, Inv}
use lateral_root.Scheduler.Invariant.Commands.{index_lt}
use lateral_root.Scheduler.Invariant.Loops.{execute_command-Inv}
use lateral_root.Scheduler.Invariant.Remove.{scheduled-testbit, remove_command-Inv}
use lateral_root.Scheduler.Effects.{execute_act, scheduled_commands, Acts, for_each-foldl}

module _ {W : Type 0} {o : Objects W} {g : Statics} (f : WellFormed o g) where
  pub unschedule-local :
      (c j : ℕ) (b : Bool) (t : Scheduler W)
      → Inv o g t
      → IsScheduled o g t c
      → o.command_id c ≢ j
      → testbit (unschedule o c b t).added_command_bitmap j ≡ testbit t.added_command_bitmap j
  unfolding unschedule
  unschedule-local c j b t v here ne = ground (
    arith,
    testbit-clear t.added_command_bitmap (one_hot (o.command_id c)) j v.added_word (one_hot-lt _),
    testbit-one_hot (o.command_id c) j (index_lt f _ c here.0),
  )

  -- Removing a scheduled command is the end of it.
  pub remove_command-unschedule :
      (c : ℕ) (b : Bool) (t : Scheduler W)
      → IsScheduled o g t c
      → remove_command o (some c) b t ≡ unschedule o c b t
  unfolding remove_command
  remove_command-unschedule c b t here = rw (scheduled-testbit f c t here.0, here.1)

  remove_command-Acts :
      (b : Bool) → Acts o g (λ c w. o.end c b w) (λ c. remove_command o (some c) b)
  remove_command-Acts b = record {
    acts = λ c t v here.
        ap (λ u. u.world) (remove_command-unschedule c b t here) ∙ unfold unschedule in refl;
    keeps = λ c t v here. remove_command-Inv f t c b v here.0;
    local = λ c j t v here ne.
        ap (λ u. testbit u.added_command_bitmap j) (remove_command-unschedule c b t here)
        ∙ unschedule-local c j b t v here ne;
  }

  -- The loop of a safe disconnected run ends every scheduled command once, by increasing identifier
  -- and as interrupted, if the registrars are well formed and the invariant holds.
  pub end_all-foldl :
      (s : Scheduler W)
      → Inv o g s
      → (end_all o g s).world ≡ foldl (λ w c. o.end c true w) s.world (scheduled_commands o g s)
  unfolding end_all
  end_all-foldl s v =
      for_each-foldl f (λ c w. o.end c true w) (λ c. remove_command o (some c) true)
        (remove_command-Acts true) _ (λ i c t e. ap (λ p. remove_command o p true t) e) s v

  executed :
      (c : ℕ) (t : Scheduler W)
      → IsScheduled o g t c
      → o.is_finished c (o.execute c t.world) ≡ true
      → execute_command o g c t ≡ unschedule o c false (record t { world = o.execute c t.world })
  unfolding execute_command
  executed c t here e =
      rw e (remove_command-unschedule c false (record t { world = o.execute c t.world }) here)

  skipped :
      (c : ℕ) (t : Scheduler W)
      → o.is_finished c (o.execute c t.world) ≡ false
      → execute_command o g c t ≡ record t { world = o.execute c t.world }
  unfolding execute_command
  skipped c t e = rw e

  execute_command-Acts : Acts o g (execute_act o) (execute_command o g)
  execute_command-Acts = record {
    acts = λ c t v here. elim (Bool-cases (o.is_finished c (o.execute c t.world))) [
      | inl e ↦ rw (executed c t here e, e) (unfold unschedule in refl)
      | inr e ↦ rw (skipped c t e, e)
    ];
    keeps = λ c t v here. execute_command-Inv f c t here.0 v;
    local = λ c j t v here ne. elim (Bool-cases (o.is_finished c (o.execute c t.world))) [
      | inl e ↦
          rw (executed c t here e)
            (unschedule-local c j false (record t { world = o.execute c t.world }) v here ne)
      | inr e ↦ rw (skipped c t e)
    ];
  }

  -- The loop of a connected run executes every scheduled command once, by increasing identifier, and
  -- ends each one that is finished right after it was executed, if the registrars are well formed
  -- and the invariant holds.
  pub execute_all-foldl :
      (s : Scheduler W)
      → Inv o g s
      → (execute_all o g s).world
        ≡ foldl (λ w c. execute_act o c w) s.world (scheduled_commands o g s)
  unfolding execute_all
  execute_all-foldl s v =
      for_each-foldl f (execute_act o) (execute_command o g) execute_command-Acts _
        (λ i c t e. ap (λ p. dereference p (execute_command o g) t) e) s v
