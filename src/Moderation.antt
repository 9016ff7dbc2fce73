-- ===== src/Moderation.antt =====
-- Reports and moderation (crates/domain/src/moderation.rs, crates/application/src/moderation.rs,
-- crates/infrastructure/src/moderation/report.rs).
pub mod Error
pub mod Rules
pub mod Report
pub mod Service
pub mod Actions
mod Tests
