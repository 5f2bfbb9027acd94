-- ===== src/Timers/Conditional.antt =====
-- tap/architecture/conditional_timer.hpp
use lateral_root.Prelude.{ℕ, Bool, not, if◌then◌else◌}
use lateral_root.Timers.Timeout.{Timeout, new_timeout, restart, stop, is_expired}

pub record ConditionalTimer : Type 0 where
  pub timer : Timeout
  pub timeout : ℕ

abbrev pub construct_conditional : ℕ → ConditionalTimer
construct_conditional timeout = record { timer = new_timeout; timeout = timeout }

abbrev pub restart_conditional : ℕ → ConditionalTimer → ConditionalTimer
restart_conditional now c = record c { timer = restart c.timeout now }

abbrev pub restart_conditional_with : ℕ → ℕ → ConditionalTimer → ConditionalTimer
restart_conditional_with new_timeout now c = record c {
  timer = restart new_timeout now;
  timeout = new_timeout;
}

abbrev pub stop_conditional : ConditionalTimer → ConditionalTimer
stop_conditional c = record c { timer = stop c.timer }

-- The clock is read by `restart`, and again by `isExpired`.
unfoldable pub execute_conditional : Bool → ℕ → ℕ → ConditionalTimer → Bool × ConditionalTimer
execute_conditional condition now later c =
    let c' = if not condition then restart_conditional now c else c in
    (is_expired later c'.timer, c')
