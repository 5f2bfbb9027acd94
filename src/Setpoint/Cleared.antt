-- ===== src/Setpoint/Cleared.antt =====
-- When unjam_command.cpp holds that a jam is cleared.
use lateral_root.Prelude.{◌≡◌, ◌⊎◌, refl, ap, true, not, ◌&&◌, arith, Bool-cases, inl, inr}
use lateral_root.Setpoint.{Floats, SetpointMethods}
use lateral_root.Setpoint.Unjam.{
  UnjamCommand, UnjamState, unjam_backward, unjam_forward, jam_cleared, not_cleared, initialize,
  execute, execute_state, check_cleared, begin_unjam_backwards, begin_unjam_forwards, timed_out,
}

module _ {F W : Type 0} (f : Floats F) (o : SetpointMethods F W) where
  -- The state says that the jam is cleared exactly if both directions have been cleared.
  abbrev pub IsConsistent : UnjamCommand F → Type 0
  IsConsistent u = not_cleared u.curr_unjam_state ≡ not (u.forwards_cleared && u.backwards_cleared)

  pub initialize-IsConsistent :
      (u : UnjamCommand F) (w : W) → IsConsistent (initialize f o (u, w)).0
  unfolding initialize begin_unjam_backwards
  initialize-IsConsistent u w = refl

  check_cleared-IsConsistent :
      (u : UnjamCommand F) (w : W)
      → (not_cleared u.curr_unjam_state ≡ true) ⊎ IsConsistent u
      → IsConsistent (check_cleared f o (u, w)).0
  unfolding check_cleared
  check_cleared-IsConsistent u w (inl e) = ground arith
  check_cleared-IsConsistent u w (inr e) = ground arith

  -- The switch leaves a state of movement, or changes nothing.
  execute_state_lem :
      (s : UnjamState) (u : UnjamCommand F) (w : W)
      → u.curr_unjam_state ≡ s
      → IsConsistent u
      → (not_cleared (execute_state f o s (u, w)).0.curr_unjam_state ≡ true)
        ⊎ IsConsistent (execute_state f o s (u, w)).0
  unfolding execute_state begin_unjam_backwards begin_unjam_forwards
  execute_state_lem unjam_backward u w e c =
      elim (Bool-cases
        (f.le (o.get_current_value w) (f.minus u.value_before_unjam u.unjam_threshold))) [
          | inl p ↦ inl (rw (p))
          | inr p ↦ elim (Bool-cases (timed_out f o (u, w))) [
            | inl t ↦ inl (rw (p, t))
            | inr t ↦ inl (rw (p, t) (ap not_cleared e))
          ]
        ]
  execute_state_lem unjam_forward u w e c =
      elim (Bool-cases
        (f.le (f.plus u.value_before_unjam u.unjam_threshold) (o.get_current_value w))) [
          | inl p ↦ inl (rw (p))
          | inr p ↦ elim (Bool-cases (timed_out f o (u, w))) [
            | inl t ↦ inl (rw (p, t))
            | inr t ↦ inl (rw (p, t) (ap not_cleared e))
          ]
        ]
  execute_state_lem jam_cleared u w e c = elim (Bool-cases (timed_out f o (u, w))) [
    | inl t ↦ inl (rw (t))
    | inr t ↦ inr (rw (t) c)
  ]

  pub execute-IsConsistent :
      (u : UnjamCommand F) (w : W) → IsConsistent u → IsConsistent (execute f o (u, w)).0
  unfolding execute
  execute-IsConsistent u w c =
      check_cleared-IsConsistent (execute_state f o u.curr_unjam_state (u, w)).0
        (execute_state f o u.curr_unjam_state (u, w)).1
        (execute_state_lem u.curr_unjam_state u w refl c)

  -- A command that has been initialized and executed some times, with anything happening in between.
  pub data Runs : UnjamCommand F → Type 0 where
    initialized : (u : UnjamCommand F) (w : W) → Runs (initialize f o (u, w)).0
    executed : (u : UnjamCommand F) (w : W) → Runs u → Runs (execute f o (u, w)).0
