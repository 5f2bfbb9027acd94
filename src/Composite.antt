-- ===== src/Composite.antt =====
-- Commands that run other commands: tap/control/sequential_command.hpp, concurrent_command.hpp and the
-- governors of tap/control/governor. The other commands are named by address; what their methods do
-- is the parameter `Objects`.
pub mod Sequential
pub mod Concurrent
pub mod Governor
