-- ===== src/Setpoint/Moves.antt =====
-- tap/control/setpoint/commands: move_command.cpp, move_absolute_command.cpp, move_integral_command.cpp and
-- calibrate_command.cpp.
use lateral_root.Prelude.{ℕ, ◌+◌, ◌-◌, ◌%◌, ◌^◌, Bool, not, ◌&&◌, ◌||◌, if◌then◌else◌}
use lateral_root.Timers.Timeout.{Timeout, restart, stop, is_stopped, is_expired}
use lateral_root.Setpoint.{Floats, SetpointMethods, compare_float_close}
use lateral_root.Setpoint.Ramp.{Ramp, set_target, set_value, update}

pub record MoveCommand (F : Type 0) : Type 0 where
  pub target_displacement : F
  pub ramp_to_target_value : Ramp F
  pub move_time : ℕ
  pub pause_after_move_time : ℕ
  pub setpoint_tolerance : F
  pub previous_move_time : ℕ
  pub set_to_target_on_end : Bool
  pub min_move_timeout : Timeout

pub record MoveAbsoluteCommand (F : Type 0) : Type 0 where
  pub setpoint : F
  pub speed : F
  pub absolute_tolerance : F
  pub automatically_clear_jam : Bool
  pub set_setpoint_to_target_on_end : Bool
  pub ramp_to_setpoint : Ramp F
  pub prev_move_time : ℕ

pub record MoveIntegralCommand (F : Type 0) : Type 0 where
  pub target_integral_change : F
  pub desired_setpoint : F
  pub integral_setpoint_tolerance : F
  pub final_target_integral_setpoint : F

-- `a - b` at uint32_t.
abbrev pub elapsed : ℕ → ℕ → ℕ
elapsed a b = (a + (2 ^ 32 - b)) % 2 ^ 32

module _ {F W : Type 0} (f : Floats F) (o : SetpointMethods F W) where
  abbrev pub stuck : W → Bool
  stuck w = o.is_jammed w || not (o.is_online w)

  unfoldable pub initialize_move : MoveCommand F × W → MoveCommand F × W
  initialize_move (m, w) =
      let current = o.get_setpoint w in
      let target = f.plus current m.target_displacement in
      (
        record m {
          ramp_to_target_value = set_value f current (set_target f target m.ramp_to_target_value);
          previous_move_time = o.get_time_milliseconds w;
          min_move_timeout = stop m.min_move_timeout;
        },
        w,
      )

  unfoldable pub execute_move : MoveCommand F × W → MoveCommand F × W
  execute_move (m, w) =
      let now = o.get_time_milliseconds w in
      if stuck w
      then (record m { previous_move_time = now }, w)
      else (let step =
            f.divide (f.times (f.of_uint (elapsed now m.previous_move_time)) m.target_displacement)
              (f.of_uint m.move_time) in
          let ramp = update f step m.ramp_to_target_value in
          let w' = o.set_setpoint ramp.value w in
          let near =
            f.le (f.absolute (f.minus (o.get_current_value w') ramp.target)) m.setpoint_tolerance in
          (
            record m {
              ramp_to_target_value = ramp;
              previous_move_time = now;
              min_move_timeout =
                  if is_stopped m.min_move_timeout && near
                  then restart m.pause_after_move_time (o.get_time_milliseconds w')
                  else m.min_move_timeout;
            },
            w',
          ))

  unfoldable pub end_move : Bool → MoveCommand F × W → W
  end_move interrupted (m, w) =
      if interrupted || stuck w || not m.set_to_target_on_end
      then o.set_setpoint (o.get_current_value w) w
      else o.set_setpoint m.ramp_to_target_value.target w

  unfoldable pub is_finished_move : MoveCommand F × W → Bool
  is_finished_move (m, w) =
      stuck w
      || (compare_float_close f (o.get_current_value w) m.ramp_to_target_value.target
            m.setpoint_tolerance
          && m.ramp_to_target_value.target_reached
          && is_expired (o.get_time_milliseconds w) m.min_move_timeout)

  abbrev pub is_ready_absolute : W → Bool
  is_ready_absolute w = not (o.is_jammed w) && o.is_online w

  unfoldable pub initialize_absolute : MoveAbsoluteCommand F × W → MoveAbsoluteCommand F × W
  initialize_absolute (m, w) = (
    record m {
      ramp_to_setpoint =
          set_value f (o.get_current_value w) (set_target f m.setpoint m.ramp_to_setpoint);
      prev_move_time = o.get_time_milliseconds w;
    },
    w,
  )

  unfoldable pub execute_absolute : MoveAbsoluteCommand F × W → MoveAbsoluteCommand F × W
  execute_absolute (m, w) =
      let now = o.get_time_milliseconds w in
      if stuck w
      then (record m { prev_move_time = now }, o.set_setpoint (o.get_current_value w) w)
      else (let step =
            f.divide (f.times (f.of_uint (elapsed now m.prev_move_time)) m.speed)
              (f.of_uint 1000) in
          let ramp = update f step m.ramp_to_setpoint in
          (record m { ramp_to_setpoint = ramp; prev_move_time = now }, o.set_setpoint ramp.value w))

  unfoldable pub end_absolute : MoveAbsoluteCommand F × W → W
  end_absolute (m, w) =
      let w' =
        if not (o.is_jammed w) && m.set_setpoint_to_target_on_end
        then o.set_setpoint m.setpoint w
        else o.set_setpoint (o.get_current_value w) w in
      if m.automatically_clear_jam then o.clear_jam w' else w'

  unfoldable pub is_finished_absolute : MoveAbsoluteCommand F × W → Bool
  is_finished_absolute (m, w) =
      stuck w
      || (m.ramp_to_setpoint.target_reached
          && compare_float_close f (o.get_current_value w) m.ramp_to_setpoint.target
              m.absolute_tolerance)

  unfoldable pub initialize_integral : MoveIntegralCommand F × W → MoveIntegralCommand F × W
  initialize_integral (m, w) =
      let w' = o.set_setpoint m.desired_setpoint w in
      (
        record m {
          final_target_integral_setpoint =
              f.plus (o.get_current_value_integral w') m.target_integral_change;
        },
        w',
      )

  unfoldable pub end_integral : W → W
  end_integral w = o.set_setpoint (f.of_uint 0) w

  unfoldable pub target_integral_reached : MoveIntegralCommand F × W → Bool
  target_integral_reached (m, w) =
      let now = o.get_current_value_integral w in
      if f.lt (f.of_uint 0) m.target_integral_change
      then f.lt (f.minus m.final_target_integral_setpoint m.integral_setpoint_tolerance) now
      else f.lt now (f.plus m.final_target_integral_setpoint m.integral_setpoint_tolerance)

  unfoldable pub is_finished_integral : MoveIntegralCommand F × W → Bool
  is_finished_integral (m, w) = stuck w || target_integral_reached (m, w)
