-- ===== src/Timers/ConditionalLaws.antt =====
-- A conditional timer expires when its condition has held for long enough.
use lateral_root.Prelude.{ℕ, ◌+◌, ◌≤◌, ◌<◌, ◌≡◌, ◌↔◌, refl, Bool, true, false, List, [], ◌∷◌}
use lateral_root.Timers.Timeout.{uint32_count}
use lateral_root.Timers.TimeoutLaws.{is_expired-restart}
use lateral_root.Timers.Conditional.{ConditionalTimer, restart_conditional, execute_conditional}

-- A history of calls of `execute`: the condition, and the time that the clock shows.
abbrev pub Calls : Type 0
Calls = List (Bool × ℕ)

unfoldable pub execute_calls : Calls → ConditionalTimer → ConditionalTimer
execute_calls [] c = c
execute_calls ((condition, now) ∷ h) c = execute_calls h (execute_conditional condition now now c).1

-- The time of the last call at which the condition was false, or of the restart before the history.
abbrev pub false_since : ℕ → Calls → ℕ
false_since start [] = start
false_since start ((true, now) ∷ h) = false_since start h
false_since start ((false, now) ∷ h) = false_since now h

-- The clock is far enough from its last value at every call.
abbrev pub AreEarly : ℕ → Calls → Type 0
AreEarly timeout [] = Unit {0}
AreEarly timeout ((condition, now) ∷ h) = (now + timeout < uint32_count) × AreEarly timeout h

execute_calls_lem :
    (start : ℕ) (h : Calls) (c : ConditionalTimer)
    → execute_calls h (restart_conditional start c) ≡ restart_conditional (false_since start h) c
unfolding execute_calls execute_conditional
execute_calls_lem start [] c = refl
execute_calls_lem start ((true, now) ∷ h) c = execute_calls_lem start h c
execute_calls_lem start ((false, now) ∷ h) c = execute_calls_lem now h c

false_since_early :
    (start timeout : ℕ) (h : Calls)
    → start + timeout < uint32_count
    → AreEarly timeout h
    → false_since start h + timeout < uint32_count
false_since_early start timeout [] early all = early
false_since_early start timeout ((true, now) ∷ h) early all =
    false_since_early start timeout h early all.1
false_since_early start timeout ((false, now) ∷ h) early all =
    false_since_early now timeout h all.0 all.1

-- After a restart and a history of calls, a call with a true condition says that the timer is expired
-- exactly if the timeout has passed since the condition was last false, or since the restart. At none
-- of these times is the clock within the timeout of its last value.
pub execute_conditional-false_since :
    (start now : ℕ) (h : Calls) (c : ConditionalTimer)
    → start + c.timeout < uint32_count
    → AreEarly c.timeout h
    → ((execute_conditional true now now (execute_calls h (restart_conditional start c))).0 ≡ true)
      ↔ (false_since start h + c.timeout ≤ now)
unfolding execute_conditional
execute_conditional-false_since start now h c early all = rw (execute_calls_lem start h c) (
    is_expired-restart c.timeout (false_since start h) now
      (false_since_early start c.timeout h early all))
