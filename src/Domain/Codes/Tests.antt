-- ===== src/Domain/Codes/Tests.antt =====
-- The codes at a concrete text.
use bikesnest.Prelude.{◌≡◌, ◌↔◌, ok, some}
use bikesnest.Domain.Codes.Laws.{from_code_iff}
use bikesnest.Domain.Codes.ReportState
use bikesnest.Domain.Codes.ReportTargetType
use bikesnest.Domain.Codes.PhotoModerationState
use bikesnest.Domain.Codes.AccountState
use bikesnest.Domain.Codes.Role
use bikesnest.Domain.Codes.AuthenticationProvider
use bikesnest.Domain.Codes.VerificationKind
use bikesnest.Domain.Codes.ExistenceResult
use bikesnest.Domain.Codes.AttributeResult
use bikesnest.Domain.Codes.ProposalKind
use bikesnest.Domain.Codes.ProposalStatus
use bikesnest.Domain.Codes.ChangeKind
use bikesnest.Domain.Codes.Confidence
use bikesnest.Domain.Codes.ParkingType
use bikesnest.Domain.Codes.PricingUnit
use bikesnest.Domain.Codes.ModerationState
use bikesnest.Domain.Codes.PrivacyRequestKind
use bikesnest.Domain.Codes.PrivacyRequestState
use bikesnest.Domain.Codes.ExportState
use bikesnest.Domain.Codes.PolicyKind

from_code_iff_example :
    ((s : ReportState.ReportState)
      → (ReportState.from_code "OPEN" ≡ ok s) ↔ (ReportState.as_code s ≡ "OPEN"))
    × ((s : ReportTargetType.ReportTargetType)
        → (ReportTargetType.from_code "OPEN" ≡ ok s) ↔ (ReportTargetType.as_code s ≡ "OPEN"))
    × ((s : PhotoModerationState.PhotoModerationState)
        → (PhotoModerationState.from_code "OPEN" ≡ ok s)
          ↔ (PhotoModerationState.as_code s ≡ "OPEN"))
    × ((s : AccountState.AccountState)
        → (AccountState.from_code "OPEN" ≡ some s) ↔ (AccountState.as_code s ≡ "OPEN"))
    × ((s : Role.Role) → (Role.from_code "OPEN" ≡ some s) ↔ (Role.as_code s ≡ "OPEN"))
    × ((s : AuthenticationProvider.AuthenticationProvider)
        → (AuthenticationProvider.from_code "OPEN" ≡ some s)
          ↔ (AuthenticationProvider.as_code s ≡ "OPEN"))
    × ((s : VerificationKind.VerificationKind)
        → (VerificationKind.from_code "OPEN" ≡ ok s) ↔ (VerificationKind.as_code s ≡ "OPEN"))
    × ((s : ExistenceResult.ExistenceResult)
        → (ExistenceResult.from_code "OPEN" ≡ ok s) ↔ (ExistenceResult.as_code s ≡ "OPEN"))
    × ((s : AttributeResult.AttributeResult)
        → (AttributeResult.from_code "OPEN" ≡ ok s) ↔ (AttributeResult.as_code s ≡ "OPEN"))
    × ((s : ProposalKind.ProposalKind)
        → (ProposalKind.from_code "OPEN" ≡ ok s) ↔ (ProposalKind.as_code s ≡ "OPEN"))
    × ((s : ProposalStatus.ProposalStatus)
        → (ProposalStatus.from_code "OPEN" ≡ ok s) ↔ (ProposalStatus.as_code s ≡ "OPEN"))
    × ((s : ChangeKind.ChangeKind)
        → (ChangeKind.from_code "OPEN" ≡ ok s) ↔ (ChangeKind.as_code s ≡ "OPEN"))
    × ((s : Confidence.Confidence)
        → (Confidence.from_code "OPEN" ≡ some s) ↔ (Confidence.as_code s ≡ "OPEN"))
    × ((s : ParkingType.ParkingType)
        → (ParkingType.from_code "OPEN" ≡ ok s) ↔ (ParkingType.as_code s ≡ "OPEN"))
    × ((s : PricingUnit.PricingUnit)
        → (PricingUnit.from_code "OPEN" ≡ ok s) ↔ (PricingUnit.as_code s ≡ "OPEN"))
    × ((s : ModerationState.ModerationState)
        → (ModerationState.from_code "OPEN" ≡ ok s) ↔ (ModerationState.as_code s ≡ "OPEN"))
    × ((s : PrivacyRequestKind.PrivacyRequestKind)
        → (PrivacyRequestKind.from_code "OPEN" ≡ ok s) ↔ (PrivacyRequestKind.as_code s ≡ "OPEN"))
    × ((s : PrivacyRequestState.PrivacyRequestState)
        → (PrivacyRequestState.from_code "OPEN" ≡ ok s) ↔ (PrivacyRequestState.as_code s ≡ "OPEN"))
    × ((s : ExportState.ExportState)
        → (ExportState.from_code "OPEN" ≡ ok s) ↔ (ExportState.as_code s ≡ "OPEN"))
    × ((s : PolicyKind.PolicyKind)
        → (PolicyKind.from_code "OPEN" ≡ ok s) ↔ (PolicyKind.as_code s ≡ "OPEN"))
from_code_iff_example = from_code_iff "OPEN"
