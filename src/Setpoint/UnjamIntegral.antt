-- ===== src/Setpoint/UnjamIntegral.antt =====
-- tap/control/setpoint/commands/unjam_integral_command.cpp: the same with a velocity as setpoint, measured by the
-- integral of the value.
use lateral_root.Prelude.{ℕ, ◌+◌, ◌%◌, ◌^◌, Bool, true, false, not, ◌&&◌, ◌||◌, leb, if◌then◌else◌}
use lateral_root.Timers.Timeout.{Timeout, restart, is_expired}
use lateral_root.Setpoint.{Floats, SetpointMethods}
use lateral_root.Setpoint.Unjam.{
  UnjamState, unjam_backward, unjam_forward, jam_cleared, not_cleared,
}

pub record IntegralConfig (F : Type 0) : Type 0 where
  pub target_unjam_integral_change : F
  pub unjam_setpoint : F
  pub max_wait_time : ℕ
  pub target_cycle_count : ℕ

pub record UnjamIntegralCommand (F : Type 0) : Type 0 where
  pub config : IntegralConfig F
  pub unjam_rotate_timeout : Timeout
  pub backwards_count : ℕ
  pub curr_unjam_state : UnjamState
  pub position_before_unjam : F
  pub backwards_cleared : Bool
  pub forwards_cleared : Bool

module _ {F W : Type 0} (f : Floats F) (o : SetpointMethods F W) where
  abbrev pub UnjamIntegral : Type 0
  UnjamIntegral = UnjamIntegralCommand F × W

  abbrev pub restarted : UnjamIntegralCommand F → W → Timeout
  restarted u w = restart u.config.max_wait_time (o.get_time_milliseconds w)

  unfoldable pub begin_unjam_backwards : UnjamIntegral → UnjamIntegral
  begin_unjam_backwards (u, w) = (
    record u {
      unjam_rotate_timeout = restarted u w;
      curr_unjam_state = unjam_backward;
      backwards_count = (u.backwards_count + 1) % 2 ^ 32;
    },
    o.set_setpoint (f.negate u.config.unjam_setpoint) w,
  )

  unfoldable pub begin_unjam_forwards : UnjamIntegral → UnjamIntegral
  begin_unjam_forwards (u, w) = (
    record u { unjam_rotate_timeout = restarted u w; curr_unjam_state = unjam_forward },
    o.set_setpoint u.config.unjam_setpoint w,
  )

  abbrev pub is_ready : W → Bool
  is_ready w = o.is_online w

  unfoldable pub initialize : UnjamIntegral → UnjamIntegral
  initialize (u, w) = begin_unjam_backwards (
    record u {
      unjam_rotate_timeout = restarted u w;
      position_before_unjam = o.get_current_value_integral w;
      forwards_cleared = false;
      backwards_cleared = false;
      backwards_count = 0;
    },
    w,
  )

  abbrev pub timed_out : UnjamIntegral → Bool
  timed_out (u, w) = is_expired (o.get_time_milliseconds w) u.unjam_rotate_timeout

  -- The `switch` of `execute`.
  unfoldable pub execute_state : UnjamState → UnjamIntegral → UnjamIntegral
  execute_state unjam_backward (u, w) =
      if f.le (o.get_current_value_integral w)
        (f.minus u.position_before_unjam u.config.target_unjam_integral_change)
      then begin_unjam_forwards (record u { backwards_cleared = true }, w)
      else if timed_out (u, w)
      then begin_unjam_forwards (u, w)
      else (u, w)
  execute_state unjam_forward (u, w) =
      if f.le u.position_before_unjam (o.get_current_value_integral w)
      then begin_unjam_backwards (record u { forwards_cleared = true }, w)
      else if timed_out (u, w)
      then begin_unjam_backwards (u, w)
      else (u, w)
  execute_state jam_cleared (u, w) = (u, w)

  unfoldable pub execute : UnjamIntegral → UnjamIntegral
  execute (u, w) =
      let (u', w') = execute_state u.curr_unjam_state (u, w) in
      if not_cleared u'.curr_unjam_state && u'.forwards_cleared && u'.backwards_cleared
      then (record u' { curr_unjam_state = jam_cleared }, w')
      else (u', w')

  -- `zero` is the float 0.
  unfoldable pub end : UnjamIntegral → W
  end (u, w) =
      o.set_setpoint (f.of_uint 0) (if not_cleared u.curr_unjam_state then w else o.clear_jam w)

  unfoldable pub is_finished : UnjamIntegral → Bool
  is_finished (u, w) =
      not (o.is_online w)
      || not (not_cleared u.curr_unjam_state)
      || leb (u.config.target_cycle_count + 1) u.backwards_count
