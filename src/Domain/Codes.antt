-- ===== src/Domain/Codes.antt =====
-- The enumerations of the domain crate with their stored codes, one to a module.
pub mod ReportState
pub mod ReportTargetType
pub mod PhotoModerationState
pub mod AccountState
pub mod Role
pub mod AuthenticationProvider
pub mod VerificationKind
pub mod ExistenceResult
pub mod AttributeResult
pub mod ProposalKind
pub mod ProposalStatus
pub mod ChangeKind
pub mod Confidence
pub mod ParkingType
pub mod PricingUnit
pub mod ModerationState
pub mod PrivacyRequestKind
pub mod PrivacyRequestState
pub mod ExportState
pub mod PolicyKind
pub mod Laws
mod Tests
