-- ===== src/Examples/Mechanisms.antt =====
-- Runs of the setpoint commands, over numbers in place of floats.
use lateral_root.Prelude.{
  ℕ, ◌+◌, ◌-◌, ◌*◌, ◌/◌, ◌^◌, ◌<◌, ◌≤◌, ◌≡◌, refl, Bool, true, false, arith, leb, ltb,
}
use lateral_root.Timers.Timeout.{new_timeout, restart}
use lateral_root.Setpoint.{Floats, SetpointMethods}
use lateral_root.Setpoint.Unjam.{
  UnjamCommand, unjam_backward, initialize, execute, execute_state, check_cleared,
  begin_unjam_backwards, begin_unjam_forwards, timed_out, is_finished,
}
use lateral_root.Setpoint.Rounds.{first, next, Rounds-bound}
use lateral_root.Setpoint.Moves.{MoveCommand}

abbrev whole_numbers : Floats ℕ
whole_numbers = record {
  plus = λ a b. a + b;
  minus = λ a b. a - b;
  times = λ a b. a * b;
  divide = λ a b. a / b;
  negate = λ a. 0;
  absolute = λ a. a;
  copysign = λ a b. a;
  le = leb;
  lt = ltb;
  of_uint = λ a. a;
  ramp_epsilon = 0;
  nine_tenths = 1;
}

-- The time, the value, the setpoint, and whether the mechanism is jammed.
record Mechanism : Type 0 where
  time : ℕ
  value : ℕ
  setpoint : ℕ
  jammed : Bool

abbrev methods : SetpointMethods ℕ Mechanism
methods = record {
  get_setpoint = λ w. w.setpoint;
  set_setpoint = λ v w. record w { setpoint = v };
  get_current_value = λ w. w.value;
  get_current_value_integral = λ w. w.value;
  get_jam_setpoint_tolerance = λ w. 1;
  is_jammed = λ w. w.jammed;
  is_online = λ w. true;
  clear_jam = λ w. record w { jammed = false };
  get_time_milliseconds = λ w. w.time;
}

abbrev at_time : ℕ → Bool → Mechanism
at_time t b = record { time = t; value = 50; setpoint = 60; jammed = b }

abbrev constructed : UnjamCommand ℕ
constructed = record {
  unjam_rotate_timeout = new_timeout;
  max_wait_time = 100;
  unjam_displacement = 20;
  unjam_threshold = 10;
  target_cycle_count = 2;
  backwards_count = 0;
  curr_unjam_state = unjam_backward;
  setpoint_before_unjam = 0;
  value_before_unjam = 0;
  backwards_cleared = false;
  forwards_cleared = false;
}

abbrev started : UnjamCommand ℕ
started = (initialize whole_numbers methods (constructed, at_time 0 true)).0

abbrev once : UnjamCommand ℕ
once = (execute whole_numbers methods (started, at_time 150 true)).0

started_timed_out : timed_out whole_numbers methods (started, at_time 150 true) ≡ true
unfolding initialize begin_unjam_backwards restart
started_timed_out = refl

started_unfinished : is_finished whole_numbers methods (started, at_time 150 true) ≡ false
unfolding is_finished initialize begin_unjam_backwards
started_unfinished = refl

once_unfinished : is_finished whole_numbers methods (once, at_time 160 true) ≡ false
unfolding is_finished initialize execute execute_state check_cleared begin_unjam_backwards
    begin_unjam_forwards restart
once_unfinished = refl

two_cycles : once.target_cycle_count + 1 < 2 ^ 32
unfolding initialize execute execute_state check_cleared begin_unjam_backwards begin_unjam_forwards
    restart
two_cycles = omega arith

Rounds-bound_example : 2 ≤ 3 * once.target_cycle_count
Rounds-bound_example =
    Rounds-bound whole_numbers methods 1 once (at_time 160 true)
      (next 0 started (at_time 150 true) (first constructed (at_time 0 true)) started_timed_out
        started_unfinished)
      two_cycles once_unfinished

abbrev move : MoveCommand ℕ
move = record {
  target_displacement = 200;
  ramp_to_target_value = record { target = 260; value = 60; target_reached = false };
  move_time = 100;
  pause_after_move_time = 0;
  setpoint_tolerance = 1;
  previous_move_time = 0;
  set_to_target_on_end = true;
  min_move_timeout = new_timeout;
}
