-- ===== src/Setpoint/Rounds.antt =====
-- unjam_command.cpp gives up after a bounded number of movements.
use lateral_root.Prelude.{
  ℕ, suc, ◌+◌, ◌*◌, ◌^◌, ◌<◌, ◌≤◌, ◌≡◌, refl, ap, ◌∙◌, Bool, true, false, ◌&&◌, arith, ltb,
  if◌then◌else◌, Bool-cases, inl, inr,
}
use lateral_root.Setpoint.{Floats, SetpointMethods}
use lateral_root.Setpoint.Unjam.{
  UnjamCommand, UnjamState, unjam_backward, unjam_forward, jam_cleared, not_cleared, initialize,
  execute, execute_state, check_cleared, begin_unjam_backwards, begin_unjam_forwards, is_finished,
  timed_out,
}

-- How far a state is on the way from one movement backward to the next.
abbrev rank : UnjamState → ℕ
rank unjam_backward = 0
rank jam_cleared = 1
rank unjam_forward = 2

rank-le : (s : UnjamState) → rank s ≤ 2
rank-le unjam_backward = omega arith
rank-le unjam_forward = omega arith
rank-le jam_cleared = omega arith

abbrev progress : {F : Type 0} → UnjamCommand F → ℕ
progress u = 3 * u.backwards_count + rank u.curr_unjam_state

module _ {F W : Type 0} (f : Floats F) (o : SetpointMethods F W) where
  abbrev clears : UnjamCommand F → Bool
  clears u = not_cleared u.curr_unjam_state && u.forwards_cleared && u.backwards_cleared

  check_cleared-state :
      (u : UnjamCommand F) (w : W)
      → (check_cleared f o (u, w)).0.curr_unjam_state
        ≡ (if clears u then jam_cleared else u.curr_unjam_state)
  unfolding check_cleared
  check_cleared-state u w = elim (Bool-cases (clears u)) [ inl e ↦ rw (e) | inr e ↦ rw (e) ]

  check_cleared-count :
      (u : UnjamCommand F) (w : W)
      → ((check_cleared f o (u, w)).0.backwards_count ≡ u.backwards_count)
        × ((check_cleared f o (u, w)).0.target_cycle_count ≡ u.target_cycle_count)
  unfolding check_cleared
  check_cleared-count u w = elim (Bool-cases (clears u)) [
    | inl e ↦ rw (e) (refl, refl)
    | inr e ↦ rw (e) (refl, refl)
  ]

  -- What a command has in common with another that is at least as far.
  abbrev Advances : ℕ → UnjamCommand F → UnjamCommand F → Type 0
  Advances least u v = (least ≤ progress v) × (v.target_cycle_count ≡ u.target_cycle_count)

  least_rank : (b : Bool) → 1 ≤ rank (if b then jam_cleared else unjam_forward)
  least_rank true = omega arith
  least_rank false = omega arith

  check_forward :
      (least : ℕ) (u v : UnjamCommand F) (w : W)
      → v.curr_unjam_state ≡ unjam_forward
      → v.target_cycle_count ≡ u.target_cycle_count
      → least ≤ 3 * v.backwards_count + 1
      → Advances least u (check_cleared f o (v, w)).0
  check_forward least u v w e t h =
      let (c, d) = check_cleared-count v w in
      let r : rank (check_cleared f o (v, w)).0.curr_unjam_state
          ≡ rank (if clears v then jam_cleared else unjam_forward) =
        ap rank (check_cleared-state v w ∙ ap (λ s. if clears v then jam_cleared else s) e) in
      (omega (arith, c, r, least_rank (clears v)), d ∙ t)

  check_backward :
      (least : ℕ) (u v : UnjamCommand F) (w : W)
      → v.target_cycle_count ≡ u.target_cycle_count
      → least ≤ 3 * v.backwards_count
      → Advances least u (check_cleared f o (v, w)).0
  check_backward least u v w t h = let (c, d) = check_cleared-count v w in (omega (arith, c), d ∙ t)

  check_restarted :
      (least : ℕ) (u v : UnjamCommand F) (w : W)
      → v.curr_unjam_state ≡ unjam_forward
      → v.forwards_cleared ≡ false
      → v.target_cycle_count ≡ u.target_cycle_count
      → least ≤ 3 * v.backwards_count + 2
      → Advances least u (check_cleared f o (v, w)).0
  check_restarted least u v w e g t h =
      let (c, d) = check_cleared-count v w in
      let still : clears v ≡ false = ground (arith, g) in
      let same : (if clears v then jam_cleared else v.curr_unjam_state) ≡ unjam_forward =
        ap (λ b. if b then jam_cleared else v.curr_unjam_state) still ∙ e in
      let r : rank (check_cleared f o (v, w)).0.curr_unjam_state ≡ 2 =
        ap rank (check_cleared-state v w ∙ same) in
      (omega (arith, c, r), d ∙ t)

  -- The progress after a round, unless the count of movements wraps around.
  abbrev least_after : UnjamCommand F → ℕ → ℕ
  least_after u r =
      if ltb (u.backwards_count + 1) (2 ^ 32) then 3 * u.backwards_count + r + 1 else 0

  -- One round in which the time is over.
  execute-progress :
      (u : UnjamCommand F) (w : W)
      → timed_out f o (u, w) ≡ true
      → Advances (least_after u (rank u.curr_unjam_state)) u (execute f o (u, w)).0
  unfolding execute execute_state begin_unjam_backwards begin_unjam_forwards
  execute-progress u w t = by_state u.curr_unjam_state
    where
      by_state :
          (s : UnjamState)
          → Advances (least_after u (rank s)) u (check_cleared f o (execute_state f o s (u, w))).0
      by_state unjam_backward =
          elim (Bool-cases
            (f.le (o.get_current_value w) (f.minus u.value_before_unjam u.unjam_threshold))) [
              | inl p ↦ rw (p) (check_forward _ u _ _ refl refl (ground arith))
              | inr p ↦ rw (p, t) (check_forward _ u _ _ refl refl (ground arith))
            ]
      by_state unjam_forward =
          elim (Bool-cases
            (f.le (f.plus u.value_before_unjam u.unjam_threshold) (o.get_current_value w))) [
              | inl p ↦ rw (p) (check_backward _ u _ _ refl (ground arith))
              | inr p ↦ rw (p, t) (check_backward _ u _ _ refl (ground arith))
            ]
      by_state jam_cleared = rw (t) (check_restarted _ u _ _ refl refl refl (ground arith))

  -- A command that has been initialized and executed a number of times, with anything happening in between, each
  -- time with the time of its movement over and without being finished.
  pub data Rounds : ℕ → UnjamCommand F → Type 0 where
    first : (u : UnjamCommand F) (w : W) → Rounds 0 (initialize f o (u, w)).0
    next :
        (n : ℕ) (u : UnjamCommand F) (w : W)
        → Rounds n u
        → timed_out f o (u, w) ≡ true
        → is_finished f o (u, w) ≡ false
        → Rounds (suc n) (execute f o (u, w)).0

  not_finished-count :
      (u : UnjamCommand F) (w : W)
      → is_finished f o (u, w) ≡ false
      → u.backwards_count ≤ u.target_cycle_count
  unfolding is_finished
  not_finished-count u w e = ground arith

  Rounds-progress :
      (n : ℕ) (u : UnjamCommand F)
      → Rounds n u
      → u.target_cycle_count + 1 < 2 ^ 32
      → 3 + n ≤ progress u
  unfolding initialize begin_unjam_backwards
  Rounds-progress _ _ (first u w) small = omega arith
  Rounds-progress _ _ (next n u w r t e) small =
      let (p, target) = execute-progress u w t in
      let count = not_finished-count u w e in
      let before = Rounds-progress n u r (omega (arith, small, target)) in
      let fits : ltb (u.backwards_count + 1) (2 ^ 32) ≡ true =
        ground (arith, small, target, count) in
      ground (arith, before, p, fits)

  -- A command that was initialized and executed n times, each time with the time of its movement over and
  -- without being finished, and that is still not finished, has been executed fewer than three times the number of
  -- cycles that it was constructed with, whatever happened to the subsystem in between: so it is finished after
  -- that many executions at the latest. The number of cycles is below 2^32 - 1.
  pub Rounds-bound :
      (n : ℕ) (u : UnjamCommand F) (w : W)
      → Rounds n u
      → u.target_cycle_count + 1 < 2 ^ 32
      → is_finished f o (u, w) ≡ false
      → suc n ≤ 3 * u.target_cycle_count
  Rounds-bound n u w r small e =
      omega
        (arith, Rounds-progress n u r small, not_finished-count u w e, rank-le u.curr_unjam_state)
