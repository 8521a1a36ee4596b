-- ===== src/Server.antt =====
-- src/server: progress reports and batch jobs.
pub mod Progress
pub mod Jobs
pub mod Tests
