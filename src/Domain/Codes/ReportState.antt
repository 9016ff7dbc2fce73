-- ===== src/Domain/Codes/ReportState.antt =====
-- `ReportState`: the lifecycle of a report, and its codes (crates/domain/src/moderation.rs).
use bikesnest.Prelude.{
  String, ◌+++◌, Result, ok, err, ◌≡◌, refl, arith, eq_iff, ◌=s=◌, if◌then◌else◌,
}
use bikesnest.Domain.Error.{DomainError, invalid}

pub data ReportState : Type 0 where
  opened under_review resolved dismissed : ReportState

unfoldable pub as_code : ReportState → String
as_code opened = "OPEN"
as_code under_review = "UNDER_REVIEW"
as_code resolved = "RESOLVED"
as_code dismissed = "DISMISSED"

unfoldable pub from_code : String → Result DomainError ReportState
from_code code =
    if code =s= "OPEN"
    then ok opened
    else if code =s= "UNDER_REVIEW"
    then ok under_review
    else if code =s= "RESOLVED"
    then ok resolved
    else if code =s= "DISMISSED"
    then ok dismissed
    else err (invalid ("unknown report state: " +++ code))

pub as_code-of_from_code :
    (code : String) (s : ReportState) → from_code code ≡ ok s → as_code s ≡ code
unfolding as_code from_code
as_code-of_from_code code opened h = ground (
  arith,
  eq_iff code "OPEN",
  eq_iff code "UNDER_REVIEW",
  eq_iff code "RESOLVED",
  eq_iff code "DISMISSED",
)
as_code-of_from_code code under_review h = ground (
  arith,
  eq_iff code "OPEN",
  eq_iff code "UNDER_REVIEW",
  eq_iff code "RESOLVED",
  eq_iff code "DISMISSED",
)
as_code-of_from_code code resolved h = ground (
  arith,
  eq_iff code "OPEN",
  eq_iff code "UNDER_REVIEW",
  eq_iff code "RESOLVED",
  eq_iff code "DISMISSED",
)
as_code-of_from_code code dismissed h = ground (
  arith,
  eq_iff code "OPEN",
  eq_iff code "UNDER_REVIEW",
  eq_iff code "RESOLVED",
  eq_iff code "DISMISSED",
)

pub from_code-as_code : (s : ReportState) → from_code (as_code s) ≡ ok s
unfolding as_code from_code
from_code-as_code opened = refl
from_code-as_code under_review = refl
from_code-as_code resolved = refl
from_code-as_code dismissed = refl
