-- ===== src/Setpoint/Unjam.antt =====
-- tap/control/setpoint/commands/unjam_command.cpp: moving back and forth until the mechanism is free.
use lateral_root.Prelude.{ℕ, ◌+◌, ◌%◌, ◌^◌, Bool, true, false, not, ◌&&◌, ◌||◌, leb, if◌then◌else◌}
use lateral_root.Timers.Timeout.{Timeout, restart, is_expired}
use lateral_root.Setpoint.{Floats, SetpointMethods, compare_float_close}

pub data UnjamState : Type 0 where
  unjam_backward unjam_forward jam_cleared : UnjamState

pub record UnjamCommand (F : Type 0) : Type 0 where
  pub unjam_rotate_timeout : Timeout
  pub max_wait_time : ℕ
  pub unjam_displacement : F
  pub unjam_threshold : F
  pub target_cycle_count : ℕ
  pub backwards_count : ℕ
  pub curr_unjam_state : UnjamState
  pub setpoint_before_unjam : F
  pub value_before_unjam : F
  pub backwards_cleared : Bool
  pub forwards_cleared : Bool

-- `currUnjamState != JAM_CLEARED`
abbrev pub not_cleared : UnjamState → Bool
not_cleared jam_cleared = false
not_cleared _ = true

module _ {F W : Type 0} (f : Floats F) (o : SetpointMethods F W) where
  abbrev pub Unjam : Type 0
  Unjam = UnjamCommand F × W

  abbrev pub restarted : UnjamCommand F → W → Timeout
  restarted u w = restart u.max_wait_time (o.get_time_milliseconds w)

  -- `uint_fast16_t` has 32 bits on the targets.
  unfoldable pub begin_unjam_backwards : Unjam → Unjam
  begin_unjam_backwards (u, w) = (
    record u {
      unjam_rotate_timeout = restarted u w;
      curr_unjam_state = unjam_backward;
      backwards_count = (u.backwards_count + 1) % 2 ^ 32;
    },
    o.set_setpoint (f.minus u.value_before_unjam u.unjam_displacement) w,
  )

  unfoldable pub begin_unjam_forwards : Unjam → Unjam
  begin_unjam_forwards (u, w) = (
    record u { unjam_rotate_timeout = restarted u w; curr_unjam_state = unjam_forward },
    o.set_setpoint (f.plus u.value_before_unjam u.unjam_displacement) w,
  )

  abbrev pub is_ready : W → Bool
  is_ready w = o.is_online w

  unfoldable pub initialize : Unjam → Unjam
  initialize (u, w) = begin_unjam_backwards (
    record u {
      unjam_rotate_timeout = restarted u w;
      setpoint_before_unjam = o.get_setpoint w;
      value_before_unjam = o.get_current_value w;
      forwards_cleared = false;
      backwards_cleared = false;
      backwards_count = 0;
    },
    w,
  )

  abbrev pub timed_out : Unjam → Bool
  timed_out (u, w) = is_expired (o.get_time_milliseconds w) u.unjam_rotate_timeout

  -- The `switch` of `execute`.
  unfoldable pub execute_state : UnjamState → Unjam → Unjam
  execute_state unjam_backward (u, w) =
      if f.le (o.get_current_value w) (f.minus u.value_before_unjam u.unjam_threshold)
      then begin_unjam_forwards (record u { backwards_cleared = true }, w)
      else if timed_out (u, w)
      then begin_unjam_forwards (u, w)
      else (u, w)
  execute_state unjam_forward (u, w) =
      if f.le (f.plus u.value_before_unjam u.unjam_threshold) (o.get_current_value w)
      then begin_unjam_backwards (record u { forwards_cleared = true }, w)
      else if timed_out (u, w)
      then begin_unjam_backwards (u, w)
      else (u, w)
  execute_state jam_cleared (u, w) =
      if timed_out (u, w)
      then begin_unjam_forwards
          (record u { backwards_cleared = false; forwards_cleared = false }, w)
      else (u, w)

  -- The rest of `execute`.
  unfoldable pub check_cleared : Unjam → Unjam
  check_cleared (u, w) =
      if not_cleared u.curr_unjam_state && u.forwards_cleared && u.backwards_cleared
      then (
        record u { curr_unjam_state = jam_cleared; unjam_rotate_timeout = restarted u w },
        o.set_setpoint u.setpoint_before_unjam w,
      )
      else (u, w)

  unfoldable pub execute : Unjam → Unjam
  execute (u, w) = check_cleared (execute_state u.curr_unjam_state (u, w))

  unfoldable pub end : Unjam → W
  end (u, w) = elim u.curr_unjam_state [
    | jam_cleared ↦ o.clear_jam w
    | _ ↦ o.set_setpoint (o.get_current_value w) w
  ]

  unfoldable pub is_finished : Unjam → Bool
  is_finished (u, w) =
      not (o.is_online w)
      || (not (not_cleared u.curr_unjam_state)
          && compare_float_close f (o.get_current_value w) u.setpoint_before_unjam
              (f.times f.nine_tenths (o.get_jam_setpoint_tolerance w)))
      || leb (u.target_cycle_count + 1) u.backwards_count
