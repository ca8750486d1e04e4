-- ===== src/Limits.antt =====
-- app/rate_limit.py and the modules it reads: limits of requests per minute, per day and at once.
pub mod Groups
pub mod Slots
pub mod Cache
pub mod Tracker
pub mod Decision
pub mod Checks
pub mod GroupChecks
pub mod Status
pub mod Upkeep
pub mod Load
mod Tests
mod GroupTests
