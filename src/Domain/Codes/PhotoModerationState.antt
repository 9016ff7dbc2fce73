-- ===== src/Domain/Codes/PhotoModerationState.antt =====
-- `PhotoModerationState`: the moderation lifecycle of a photo, and its codes (crates/domain/src/photo.rs).
use bikesnest.Prelude.{
  String, ◌+++◌, Result, ok, err, ◌≡◌, refl, arith, eq_iff, ◌=s=◌, if◌then◌else◌,
}
use bikesnest.Domain.Error.{DomainError, invalid}

pub data PhotoModerationState : Type 0 where
  pending_review approved rejected hidden : PhotoModerationState

unfoldable pub as_code : PhotoModerationState → String
as_code pending_review = "PENDING_REVIEW"
as_code approved = "APPROVED"
as_code rejected = "REJECTED"
as_code hidden = "HIDDEN"

unfoldable pub from_code : String → Result DomainError PhotoModerationState
from_code code =
    if code =s= "PENDING_REVIEW"
    then ok pending_review
    else if code =s= "APPROVED"
    then ok approved
    else if code =s= "REJECTED"
    then ok rejected
    else if code =s= "HIDDEN"
    then ok hidden
    else err (invalid ("unknown photo moderation state: " +++ code))

pub as_code-of_from_code :
    (code : String) (s : PhotoModerationState) → from_code code ≡ ok s → as_code s ≡ code
unfolding as_code from_code
as_code-of_from_code code pending_review h = ground (
  arith,
  eq_iff code "PENDING_REVIEW",
  eq_iff code "APPROVED",
  eq_iff code "REJECTED",
  eq_iff code "HIDDEN",
)
as_code-of_from_code code approved h = ground (
  arith,
  eq_iff code "PENDING_REVIEW",
  eq_iff code "APPROVED",
  eq_iff code "REJECTED",
  eq_iff code "HIDDEN",
)
as_code-of_from_code code rejected h = ground (
  arith,
  eq_iff code "PENDING_REVIEW",
  eq_iff code "APPROVED",
  eq_iff code "REJECTED",
  eq_iff code "HIDDEN",
)
as_code-of_from_code code hidden h = ground (
  arith,
  eq_iff code "PENDING_REVIEW",
  eq_iff code "APPROVED",
  eq_iff code "REJECTED",
  eq_iff code "HIDDEN",
)

pub from_code-as_code : (s : PhotoModerationState) → from_code (as_code s) ≡ ok s
unfolding as_code from_code
from_code-as_code pending_review = refl
from_code-as_code approved = refl
from_code-as_code rejected = refl
from_code-as_code hidden = refl
