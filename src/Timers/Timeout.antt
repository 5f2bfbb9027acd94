-- ===== src/Timers/Timeout.antt =====
-- tap/architecture/timeout.hpp
use lateral_root.Prelude.{
  ℕ, ◌+◌, ◌-◌, ◌%◌, ◌^◌, Bool, true, false, not, ◌&&◌, leb, ltb, if◌then◌else◌,
}

-- The number of values of a `uint32_t`.
abbrev pub uint32_count : ℕ
uint32_count = 2 ^ 32

pub record Timeout : Type 0 where
  pub is_running : Bool
  pub is_executed : Bool
  pub expire_time : ℕ

-- The default constructor.
abbrev pub new_timeout : Timeout
new_timeout = record { is_running = false; is_executed = false; expire_time = 0 }

-- It sets every member, and so is also the constructor with a timeout.
unfoldable pub restart : ℕ → ℕ → Timeout
restart timeout now = record {
  is_running = true;
  is_executed = false;
  expire_time = (now + timeout) % uint32_count;
}

abbrev pub stop : Timeout → Timeout
stop t = record t { is_running = false; is_executed = false }

abbrev pub is_stopped : Timeout → Bool
is_stopped t = not t.is_running

abbrev pub is_expired : ℕ → Timeout → Bool
is_expired now t = t.is_running && leb t.expire_time now

-- The clock is read a second time for the subtraction, which is that of `uint32_t`.
unfoldable pub time_remaining : ℕ → ℕ → Timeout → ℕ
time_remaining now later t =
    if t.is_running && ltb now t.expire_time
    then (t.expire_time + uint32_count - later) % uint32_count
    else 0

unfoldable pub execute : ℕ → Timeout → Bool × Timeout
execute now t =
    if not t.is_executed && is_expired now t
    then (true, record t { is_executed = true })
    else (false, t)
