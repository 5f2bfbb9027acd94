-- ===== src/Timers/TimeoutLaws.antt =====
-- When a timeout expires, also where the clock wraps around.
use lateral_root.Prelude.{ℕ, ◌+◌, ◌-◌, ◌≤◌, ◌<◌, ◌≡◌, ◌↔◌, true, false, arith}
use lateral_root.Timers.Timeout.{
  Timeout, uint32_count, restart, is_expired, time_remaining, execute,
}

-- While the sum of the time of the restart and the timeout fits in 32 bits, a restarted timeout is
-- expired exactly from that sum on.
pub is_expired-restart :
    (timeout start now : ℕ)
    → start + timeout < uint32_count
    → (is_expired now (restart timeout start) ≡ true) ↔ (start + timeout ≤ now)
unfolding restart
is_expired-restart timeout start now fits = ground arith

-- If the sum of the time of the restart and the timeout does not fit in 32 bits, while each of them
-- does, the timeout is expired at once.
pub is_expired-restart_wrapped :
    (timeout now : ℕ)
    → now < uint32_count
    → timeout < uint32_count
    → uint32_count ≤ now + timeout
    → is_expired now (restart timeout now) ≡ true
unfolding restart
is_expired-restart_wrapped timeout now n t wraps = ground arith

-- `execute` gives true once: whatever the clock shows later, it gives false until the next restart.
pub execute-execute :
    (now later : ℕ) (t : Timeout)
    → (execute now t).0 ≡ true
    → execute later (execute now t).1 ≡ (false, (execute now t).1)
unfolding execute
execute-execute now later t e = ground arith

-- While the timeout has not expired at the second reading of the clock, the time that remains is the
-- distance to the time of expiry.
pub time_remaining_lem :
    (now later : ℕ) (t : Timeout)
    → t.is_running ≡ true
    → t.expire_time < uint32_count
    → now ≤ later
    → later ≤ t.expire_time
    → now < t.expire_time
    → time_remaining now later t + later ≡ t.expire_time
unfolding time_remaining
time_remaining_lem now later t running fits order before h = ground arith

-- If a running timeout expires between the two readings of the clock, the time that remains is given
-- as 2^32 less the time since it expired.
pub time_remaining_late :
    (now later : ℕ) (t : Timeout)
    → t.is_running ≡ true
    → later < uint32_count
    → now < t.expire_time
    → t.expire_time < later
    → time_remaining now later t + (later - t.expire_time) ≡ uint32_count
unfolding time_remaining
time_remaining_late now later t running fits before after = ground arith
