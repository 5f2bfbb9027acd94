-- ===== src/Scheduler/Invariant/Add.antt =====
-- `addCommand`: the invariant, and which commands are scheduled after it.
use lateral_root.Prelude.{ℕ, ◌≡◌, ◌≢◌, ◌↔◌, Bool, true, false, some, arith, Bool-cases, inl, inr}
use lateral_root.Bits.{testbit}
use lateral_root.Bits.Sets.{bit_and-eq_left}
use lateral_root.Objects.{Objects, Statics}
use lateral_root.Scheduler.{Scheduler, raise_error}
use lateral_root.Scheduler.Commands.{
  safe_disconnected, requirements_registered, schedule, interrupt_all, add_ready_command,
  add_checked_command, add_command,
}
use lateral_root.Scheduler.Invariant.{WellFormed, IsConstructed, Requires, IsScheduled, Inv}
use lateral_root.Scheduler.Invariant.Commands.{
  index_lt_max, schedule-Consistent, now-IsAdded, old_or_new, kept,
}
use lateral_root.Scheduler.Invariant.Interrupt.{IsApart, Swept, interrupt_all-Swept}

module _ {W : Type 0} {o : Objects W} {g : Statics} (f : WellFormed o g) where
  -- The test of `addCommand` on the requirements holds exactly when every subsystem that the command
  -- uses is registered and it uses one.
  pub registered_iff :
      (c : ℕ) (s : Scheduler W)
      → (requirements_registered o (o.requirements c) s ≡ true) ↔ (
          ((k : ℕ) → Requires o g c k → testbit s.registered_subsystem_bitmap k ≡ true)
          × (o.requirements c ≢ 0))
  registered_iff c s = (
    (λ e. (
      (bit_and-eq_left (o.requirements c) s.registered_subsystem_bitmap).0 (ground arith),
      ground arith,
    )),
    (λ h. ground (arith, (bit_and-eq_left (o.requirements c) s.registered_subsystem_bitmap).1 h.0)),
  )

  module _ (c : ℕ) (s : Scheduler W) (v : Inv o g s) (here : IsConstructed o g c)
      (ok : requirements_registered o (o.requirements c) s ≡ true) where
    swept :
        Swept o g (o.requirements c) s g.commands.max_index (interrupt_all o g (o.requirements c) s)
    swept = interrupt_all-Swept f (o.requirements c) s v

    subset :
        (k : ℕ)
        → Requires o g c k
        → testbit (interrupt_all o g (o.requirements c) s).registered_subsystem_bitmap k ≡ true
    subset k q = rw swept.same_registered (((registered_iff c s).0 ok).0 k q)

    free :
        (d k : ℕ)
        → IsScheduled o g (interrupt_all o g (o.requirements c) s) d
        → Requires o g c k
        → testbit (o.requirements d) k ≡ false
    free d k sd q = swept.apart d sd (index_lt_max f _ d sd.0) k q

    schedule-Inv : Inv o g (schedule o c (interrupt_all o g (o.requirements c) s))
    unfolding schedule
    schedule-Inv = schedule-Consistent f c swept.inv here ((registered_iff c s).0 ok).1 subset free

    schedule-new : IsScheduled o g (schedule o c (interrupt_all o g (o.requirements c) s)) c
    unfolding schedule
    schedule-new = now-IsAdded f c swept.inv here ((registered_iff c s).0 ok).1 subset free

    schedule-others :
        (d : ℕ)
        → d ≢ c
        → IsScheduled o g (schedule o c (interrupt_all o g (o.requirements c) s)) d
          ↔ (IsScheduled o g s d × IsApart o g (o.requirements c) s d)
    unfolding schedule
    schedule-others d ne = (
      (λ sd. elim (old_or_new f c swept.inv here ((registered_iff c s).0 ok).1 subset free d sd) [
        | inl old ↦ (swept.fewer d old, λ k q. free d k old q)
        | inr new ↦ absurd (ne new)
      ]),
      (λ h.
          kept f c swept.inv here ((registered_iff c s).0 ok).1 subset free d
            (swept.kept d h.0 h.1)),
    )

  add_ready_command-Inv :
      (c : ℕ) (s : Scheduler W)
      → Inv o g s
      → IsConstructed o g c
      → Inv o g (add_ready_command o g c s)
  unfolding add_ready_command raise_error
  add_ready_command-Inv c s v here =
      elim (Bool-cases (requirements_registered o (o.requirements c) s)) [
        | inl e ↦ rw e (schedule-Inv c s v here e)
        | inr e ↦ rw e v
      ]

  -- Adding a command, ready or not, keeps the invariant.
  pub add_command-Inv :
      (c : ℕ) (s : Scheduler W)
      → Inv o g s
      → IsConstructed o g c
      → Inv o g (add_command o g (some c) s)
  unfolding add_command
  add_command-Inv c s v here = elim (Bool-cases (safe_disconnected o s)) [
    | inl e ↦ rw e v
    | inr e ↦ rw e (asked (o.is_ready c s.world))
  ]
    where
      asked : (r : Bool × W) → Inv o g (add_checked_command o g r c s)
      asked (true, w) = add_ready_command-Inv c (record s { world = w }) v here
      asked (false, w) = v

  -- If the registrars are well formed and the invariant holds, a constructed command that is ready,
  -- while the robot is connected and with its requirements registered, is scheduled by `addCommand`;
  -- of the others exactly those stay scheduled that share no subsystem with it.
  pub add_command-schedules :
      (c : ℕ) (s : Scheduler W) (w : W)
      → Inv o g s
      → IsConstructed o g c
      → safe_disconnected o s ≡ false
      → o.is_ready c s.world ≡ (true, w)
      → requirements_registered o (o.requirements c) s ≡ true
      → IsScheduled o g (add_command o g (some c) s) c
        × ((d : ℕ)
            → d ≢ c
            → IsScheduled o g (add_command o g (some c) s) d
              ↔ (IsScheduled o g s d × IsApart o g (o.requirements c) s d))
  unfolding add_command add_ready_command
  add_command-schedules c s w v here connected ready ok =
      rw (connected, ready, ok)
        (
          schedule-new c (record s { world = w }) v here ok,
          schedule-others c (record s { world = w }) v here ok,
        )
