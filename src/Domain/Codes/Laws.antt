-- ===== src/Domain/Codes/Laws.antt =====
-- The stored codes of every enumeration of the domain crate are a bijection.
use bikesnest.Prelude.{String, ◌≡◌, ◌↔◌, sym, ap, ◌∙◌, ok, some}
use bikesnest.Domain.Codes.ReportState
use bikesnest.Domain.Codes.ReportTargetType
use bikesnest.Domain.Codes.PhotoModerationState
use bikesnest.Domain.Codes.AccountState
use bikesnest.Domain.Codes.Role
use bikesnest.Domain.Codes.AuthenticationProvider
use bikesnest.Domain.Codes.VerificationKind
use bikesnest.Domain.Codes.ExistenceResult
use bikesnest.Domain.Codes.AttributeResult
use bikesnest.Domain.Codes.ProposalKind
use bikesnest.Domain.Codes.ProposalStatus
use bikesnest.Domain.Codes.ChangeKind
use bikesnest.Domain.Codes.Confidence
use bikesnest.Domain.Codes.ParkingType
use bikesnest.Domain.Codes.PricingUnit
use bikesnest.Domain.Codes.ModerationState
use bikesnest.Domain.Codes.PrivacyRequestKind
use bikesnest.Domain.Codes.PrivacyRequestState
use bikesnest.Domain.Codes.ExportState
use bikesnest.Domain.Codes.PolicyKind

-- For each of the twenty enumerations of crates/domain that the statement names, a text reads as a
-- value exactly if it is the code of that value: each code reads back as its value, no two values
-- share a code, and no other text is read.
pub from_code_iff :
    (code : String)
    → ((s : ReportState.ReportState)
        → (ReportState.from_code code ≡ ok s) ↔ (ReportState.as_code s ≡ code))
      × ((s : ReportTargetType.ReportTargetType)
          → (ReportTargetType.from_code code ≡ ok s) ↔ (ReportTargetType.as_code s ≡ code))
      × ((s : PhotoModerationState.PhotoModerationState)
          → (PhotoModerationState.from_code code ≡ ok s) ↔ (PhotoModerationState.as_code s ≡ code))
      × ((s : AccountState.AccountState)
          → (AccountState.from_code code ≡ some s) ↔ (AccountState.as_code s ≡ code))
      × ((s : Role.Role) → (Role.from_code code ≡ some s) ↔ (Role.as_code s ≡ code))
      × ((s : AuthenticationProvider.AuthenticationProvider)
          → (AuthenticationProvider.from_code code ≡ some s)
            ↔ (AuthenticationProvider.as_code s ≡ code))
      × ((s : VerificationKind.VerificationKind)
          → (VerificationKind.from_code code ≡ ok s) ↔ (VerificationKind.as_code s ≡ code))
      × ((s : ExistenceResult.ExistenceResult)
          → (ExistenceResult.from_code code ≡ ok s) ↔ (ExistenceResult.as_code s ≡ code))
      × ((s : AttributeResult.AttributeResult)
          → (AttributeResult.from_code code ≡ ok s) ↔ (AttributeResult.as_code s ≡ code))
      × ((s : ProposalKind.ProposalKind)
          → (ProposalKind.from_code code ≡ ok s) ↔ (ProposalKind.as_code s ≡ code))
      × ((s : ProposalStatus.ProposalStatus)
          → (ProposalStatus.from_code code ≡ ok s) ↔ (ProposalStatus.as_code s ≡ code))
      × ((s : ChangeKind.ChangeKind)
          → (ChangeKind.from_code code ≡ ok s) ↔ (ChangeKind.as_code s ≡ code))
      × ((s : Confidence.Confidence)
          → (Confidence.from_code code ≡ some s) ↔ (Confidence.as_code s ≡ code))
      × ((s : ParkingType.ParkingType)
          → (ParkingType.from_code code ≡ ok s) ↔ (ParkingType.as_code s ≡ code))
      × ((s : PricingUnit.PricingUnit)
          → (PricingUnit.from_code code ≡ ok s) ↔ (PricingUnit.as_code s ≡ code))
      × ((s : ModerationState.ModerationState)
          → (ModerationState.from_code code ≡ ok s) ↔ (ModerationState.as_code s ≡ code))
      × ((s : PrivacyRequestKind.PrivacyRequestKind)
          → (PrivacyRequestKind.from_code code ≡ ok s) ↔ (PrivacyRequestKind.as_code s ≡ code))
      × ((s : PrivacyRequestState.PrivacyRequestState)
          → (PrivacyRequestState.from_code code ≡ ok s) ↔ (PrivacyRequestState.as_code s ≡ code))
      × ((s : ExportState.ExportState)
          → (ExportState.from_code code ≡ ok s) ↔ (ExportState.as_code s ≡ code))
      × ((s : PolicyKind.PolicyKind)
          → (PolicyKind.from_code code ≡ ok s) ↔ (PolicyKind.as_code s ≡ code))
from_code_iff code = (
  λ s. (
    ReportState.as_code-of_from_code code s,
    λ h. ap ReportState.from_code (sym h) ∙ ReportState.from_code-as_code s,
  ),
  λ s. (
    ReportTargetType.as_code-of_from_code code s,
    λ h. ap ReportTargetType.from_code (sym h) ∙ ReportTargetType.from_code-as_code s,
  ),
  λ s. (
    PhotoModerationState.as_code-of_from_code code s,
    λ h. ap PhotoModerationState.from_code (sym h) ∙ PhotoModerationState.from_code-as_code s,
  ),
  λ s. (
    AccountState.as_code-of_from_code code s,
    λ h. ap AccountState.from_code (sym h) ∙ AccountState.from_code-as_code s,
  ),
  λ s.
      (Role.as_code-of_from_code code s, λ h. ap Role.from_code (sym h) ∙ Role.from_code-as_code s),
  λ s. (
    AuthenticationProvider.as_code-of_from_code code s,
    λ h. ap AuthenticationProvider.from_code (sym h) ∙ AuthenticationProvider.from_code-as_code s,
  ),
  λ s. (
    VerificationKind.as_code-of_from_code code s,
    λ h. ap VerificationKind.from_code (sym h) ∙ VerificationKind.from_code-as_code s,
  ),
  λ s. (
    ExistenceResult.as_code-of_from_code code s,
    λ h. ap ExistenceResult.from_code (sym h) ∙ ExistenceResult.from_code-as_code s,
  ),
  λ s. (
    AttributeResult.as_code-of_from_code code s,
    λ h. ap AttributeResult.from_code (sym h) ∙ AttributeResult.from_code-as_code s,
  ),
  λ s. (
    ProposalKind.as_code-of_from_code code s,
    λ h. ap ProposalKind.from_code (sym h) ∙ ProposalKind.from_code-as_code s,
  ),
  λ s. (
    ProposalStatus.as_code-of_from_code code s,
    λ h. ap ProposalStatus.from_code (sym h) ∙ ProposalStatus.from_code-as_code s,
  ),
  λ s. (
    ChangeKind.as_code-of_from_code code s,
    λ h. ap ChangeKind.from_code (sym h) ∙ ChangeKind.from_code-as_code s,
  ),
  λ s. (
    Confidence.as_code-of_from_code code s,
    λ h. ap Confidence.from_code (sym h) ∙ Confidence.from_code-as_code s,
  ),
  λ s. (
    ParkingType.as_code-of_from_code code s,
    λ h. ap ParkingType.from_code (sym h) ∙ ParkingType.from_code-as_code s,
  ),
  λ s. (
    PricingUnit.as_code-of_from_code code s,
    λ h. ap PricingUnit.from_code (sym h) ∙ PricingUnit.from_code-as_code s,
  ),
  λ s. (
    ModerationState.as_code-of_from_code code s,
    λ h. ap ModerationState.from_code (sym h) ∙ ModerationState.from_code-as_code s,
  ),
  λ s. (
    PrivacyRequestKind.as_code-of_from_code code s,
    λ h. ap PrivacyRequestKind.from_code (sym h) ∙ PrivacyRequestKind.from_code-as_code s,
  ),
  λ s. (
    PrivacyRequestState.as_code-of_from_code code s,
    λ h. ap PrivacyRequestState.from_code (sym h) ∙ PrivacyRequestState.from_code-as_code s,
  ),
  λ s. (
    ExportState.as_code-of_from_code code s,
    λ h. ap ExportState.from_code (sym h) ∙ ExportState.from_code-as_code s,
  ),
  λ s. (
    PolicyKind.as_code-of_from_code code s,
    λ h. ap PolicyKind.from_code (sym h) ∙ PolicyKind.from_code-as_code s,
  ),
)
