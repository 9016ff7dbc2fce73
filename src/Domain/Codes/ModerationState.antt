-- ===== src/Domain/Codes/ModerationState.antt =====
-- `ModerationState`: the moderation states of a location, and its codes (crates/domain/src/parking.rs).
use bikesnest.Prelude.{
  String, ◌+++◌, Result, ok, err, ◌≡◌, refl, arith, eq_iff, ◌=s=◌, if◌then◌else◌,
}
use bikesnest.Domain.Error.{DomainError, invalid}

pub data ModerationState : Type 0 where
  active pending_review flagged invalidated removed : ModerationState

unfoldable pub as_code : ModerationState → String
as_code active = "ACTIVE"
as_code pending_review = "PENDING_REVIEW"
as_code flagged = "FLAGGED"
as_code invalidated = "INVALID"
as_code removed = "REMOVED"

unfoldable pub from_code : String → Result DomainError ModerationState
from_code code =
    if code =s= "ACTIVE"
    then ok active
    else if code =s= "PENDING_REVIEW"
    then ok pending_review
    else if code =s= "FLAGGED"
    then ok flagged
    else if code =s= "INVALID"
    then ok invalidated
    else if code =s= "REMOVED"
    then ok removed
    else err (invalid ("unknown moderation state: " +++ code))

pub as_code-of_from_code :
    (code : String) (s : ModerationState) → from_code code ≡ ok s → as_code s ≡ code
unfolding as_code from_code
as_code-of_from_code code active h = ground (
  arith,
  eq_iff code "ACTIVE",
  eq_iff code "PENDING_REVIEW",
  eq_iff code "FLAGGED",
  eq_iff code "INVALID",
  eq_iff code "REMOVED",
)
as_code-of_from_code code pending_review h = ground (
  arith,
  eq_iff code "ACTIVE",
  eq_iff code "PENDING_REVIEW",
  eq_iff code "FLAGGED",
  eq_iff code "INVALID",
  eq_iff code "REMOVED",
)
as_code-of_from_code code flagged h = ground (
  arith,
  eq_iff code "ACTIVE",
  eq_iff code "PENDING_REVIEW",
  eq_iff code "FLAGGED",
  eq_iff code "INVALID",
  eq_iff code "REMOVED",
)
as_code-of_from_code code invalidated h = ground (
  arith,
  eq_iff code "ACTIVE",
  eq_iff code "PENDING_REVIEW",
  eq_iff code "FLAGGED",
  eq_iff code "INVALID",
  eq_iff code "REMOVED",
)
as_code-of_from_code code removed h = ground (
  arith,
  eq_iff code "ACTIVE",
  eq_iff code "PENDING_REVIEW",
  eq_iff code "FLAGGED",
  eq_iff code "INVALID",
  eq_iff code "REMOVED",
)

pub from_code-as_code : (s : ModerationState) → from_code (as_code s) ≡ ok s
unfolding as_code from_code
from_code-as_code active = refl
from_code-as_code pending_review = refl
from_code-as_code flagged = refl
from_code-as_code invalidated = refl
from_code-as_code removed = refl
