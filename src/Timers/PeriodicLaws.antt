-- ===== src/Timers/PeriodicLaws.antt =====
-- The loop of `PeriodicTimer::execute` ends for a period that is not 0, and keeps the timer aligned.
use lateral_root.Prelude.{
  ℕ, zero, suc, ◌+◌, ◌*◌, ◌%◌, ◌≤◌, ◌<◌, ◌≡◌, refl, true, false, none, some, leb, arith, Bool-cases,
  inl, inr,
}
use native.Mathlib.Nat.{suc-mul}
use lateral_root.Timers.Timeout.{uint32_count, execute}
use lateral_root.Timers.Periodic.{PeriodicTimer, advance, execute_periodic}

-- The next time of expiry is a number of periods after the last one, and the first such time after now.
pub record IsNext (period now expire_time next : ℕ) : Type 0 where
  pub later : now < next
  pub soon : next ≤ now + period
  pub rounds : ℕ
  pub aligned : next ≡ expire_time + rounds * period

advance-IsNext :
    (fuel period now expire_time : ℕ)
    → 0 < period
    → expire_time ≤ now
    → now + period < uint32_count
    → now < expire_time + fuel
    → (next : ℕ) × (advance fuel period now expire_time ≡ some next)
      × IsNext period now expire_time next
unfolding advance
advance-IsNext zero period now expire_time positive past fits enough = absurd (omega arith)
advance-IsNext (suc fuel) period now expire_time positive past fits enough =
    elim (Bool-cases (leb (expire_time + period) now)) [
      | inl again ↦
          let (next, e, n) =
            advance-IsNext fuel period now (expire_time + period) positive (ground arith) fits
              (omega arith) in
          (
            next,
            rw (no_wrap, again) e,
            record {
              later = n.later;
              soon = n.soon;
              rounds = suc n.rounds;
              aligned = omega (arith, n.aligned, suc-mul n.rounds period);
            },
          )
      | inr done ↦ (
        expire_time + period,
        rw (no_wrap, done),
        record { later = ground arith; soon = omega arith; rounds = 1; aligned = omega arith },
      )
    ]
  where
    no_wrap : (expire_time + period) % uint32_count ≡ expire_time + period
    no_wrap = omega arith

-- When the timer is expired and its period is not 0, `execute` ends and gives true: the next time of
-- expiry is a number of periods after the last one, and the first such time after now. Fuel above
-- the time since the last expiry is enough. The last expiry is not after now, and the sum of now and
-- the period fits in 32 bits.
pub execute_periodic-IsNext :
    (fuel now later : ℕ) (p : PeriodicTimer)
    → (execute now p.timeout).0 ≡ true
    → 0 < p.period
    → p.timeout.expire_time ≤ later
    → later + p.period < uint32_count
    → later < p.timeout.expire_time + fuel
    → (next : ℕ) × (execute_periodic fuel now later p
        ≡ some (
          true,
          record p {
            timeout = record { is_running = true; is_executed = false; expire_time = next };
          },
        ))
      × IsNext p.period later p.timeout.expire_time next
unfolding execute_periodic
execute_periodic-IsNext fuel now later p expired positive past fits enough =
    let (next, e, n) =
      advance-IsNext fuel p.period later p.timeout.expire_time positive past fits enough in
    (next, rw (execute_periodic, expired, e), n)

advance_0 :
    (fuel now expire_time : ℕ)
    → expire_time ≤ now
    → now < uint32_count
    → advance fuel 0 now expire_time ≡ none
unfolding advance
advance_0 zero now expire_time past fits = refl
advance_0 (suc fuel) now expire_time past fits =
    rw (unchanged, again) (advance_0 fuel now expire_time past fits)
  where
    unchanged : (expire_time + 0) % uint32_count ≡ expire_time
    unchanged = omega arith

    again : leb expire_time now ≡ true
    again = ground arith

-- When the timer is expired, also at the second reading of the clock, and its period is 0, which the
-- default constructor sets, `execute` does not end: no amount of fuel is enough.
pub execute_periodic-stuck :
    (fuel now later : ℕ) (p : PeriodicTimer)
    → (execute now p.timeout).0 ≡ true
    → p.period ≡ 0
    → p.timeout.expire_time ≤ later
    → later < uint32_count
    → execute_periodic fuel now later p ≡ none
unfolding execute_periodic
execute_periodic-stuck fuel now later p expired zero_period past fits =
    rw
      (execute_periodic, expired, zero_period, advance_0 fuel later p.timeout.expire_time past fits)
