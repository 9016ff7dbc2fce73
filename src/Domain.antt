-- ===== src/Domain.antt =====
-- The domain crate (crates/domain/src).
pub mod Error
pub mod Codes
pub mod Hours
pub mod Freshness
pub mod Community
pub mod Parking
pub mod ParkingEdit
pub mod Proposal
