-- ===== src/Timers.antt =====
-- The timers of tap/architecture: timeout.hpp, conditional_timer.hpp and periodic_timer.hpp. The clock
-- is a `uint32_t`, and each reading of it is an argument of the method that reads it.
pub mod Timeout
pub mod Conditional
pub mod Periodic
pub mod TimeoutLaws
pub mod ConditionalLaws
pub mod PeriodicLaws
