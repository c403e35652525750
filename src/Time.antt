-- ===== src/Time.antt =====
-- src/time/sleep.rs and src/time/timeout.rs.
pub mod Sleep
pub mod Race
pub mod Timeout
mod Tests
mod UnitTests
