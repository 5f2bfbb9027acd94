-- ===== src/Timers/Periodic.antt =====
-- tap/architecture/periodic_timer.hpp
use lateral_root.Prelude.{
  ℕ, zero, suc, ◌+◌, ◌%◌, Bool, true, false, Option, none, some, leb, if◌then◌else◌,
}
use lateral_root.Timers.Timeout.{
  Timeout, uint32_count, new_timeout, restart, stop, is_stopped, execute,
}

pub record PeriodicTimer : Type 0 where
  pub period : ℕ
  pub timeout : Timeout

abbrev pub new_periodic : PeriodicTimer
new_periodic = record { period = 0; timeout = new_timeout }

abbrev pub construct_periodic : ℕ → ℕ → PeriodicTimer
construct_periodic period now = record { period = period; timeout = restart period now }

abbrev pub restart_periodic : ℕ → PeriodicTimer → PeriodicTimer
restart_periodic now p = record p { timeout = restart p.period now }

abbrev pub restart_periodic_with : ℕ → ℕ → PeriodicTimer → PeriodicTimer
restart_periodic_with period now p = restart_periodic now (record p { period = period })

abbrev pub stop_periodic : PeriodicTimer → PeriodicTimer
stop_periodic p = record p { timeout = stop p.timeout }

abbrev pub is_stopped_periodic : PeriodicTimer → Bool
is_stopped_periodic p = is_stopped p.timeout

-- The `do` loop of `execute`. The first argument is fuel; `none` says that it is used up.
unfoldable pub advance : ℕ → ℕ → ℕ → ℕ → Option ℕ
advance zero period now expire_time = none
advance (suc fuel) period now expire_time =
    let next = (expire_time + period) % uint32_count in
    let rest = advance fuel period now next in if leb next now then rest else some next

abbrev pub periodic_expired : PeriodicTimer → Option ℕ → Option (Bool × PeriodicTimer)
periodic_expired p none = none
periodic_expired p (some next) = some (
  true,
  record p { timeout = record { is_running = true; is_executed = false; expire_time = next } },
)

-- The clock is read by `timeout.execute`, and again before the loop.
unfoldable pub execute_periodic : ℕ → ℕ → ℕ → PeriodicTimer → Option (Bool × PeriodicTimer)
execute_periodic fuel now later p =
    if (execute now p.timeout).0
    then periodic_expired p (advance fuel p.period later p.timeout.expire_time)
    else some (false, record p { timeout = (execute now p.timeout).1 })
