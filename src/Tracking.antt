-- ===== src/Tracking.antt =====
-- app/request_tracker.py: the requests in flight and the buffered counts of usage, and the tables that
-- the counts are flushed to.
pub mod Keys
pub mod Buffer
pub mod Flush
pub mod Retention
pub mod Runs
pub mod Sql
pub mod Today
pub mod Tests
