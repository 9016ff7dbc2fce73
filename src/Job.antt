-- ===== src/Job.antt =====
-- Background jobs (crates/infrastructure/src/job, crates/application/src/jobs.rs).
pub mod Error
pub mod Schedule
pub mod Table
pub mod Outcome
pub mod Claim
pub mod Worker
pub mod Recurring
mod Fixtures
mod Tests
