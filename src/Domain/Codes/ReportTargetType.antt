-- ===== src/Domain/Codes/ReportTargetType.antt =====
-- `ReportTargetType`: the kinds of content that a report may address, and its codes (crates/domain/src/moderation.rs).
use bikesnest.Prelude.{
  String, ◌+++◌, Result, ok, err, ◌≡◌, refl, arith, eq_iff, ◌=s=◌, if◌then◌else◌,
}
use bikesnest.Domain.Error.{DomainError, invalid}

pub data ReportTargetType : Type 0 where
  parking parking_photo review review_photo : ReportTargetType

unfoldable pub as_code : ReportTargetType → String
as_code parking = "parking"
as_code parking_photo = "parking_photo"
as_code review = "review"
as_code review_photo = "review_photo"

unfoldable pub from_code : String → Result DomainError ReportTargetType
from_code code =
    if code =s= "parking"
    then ok parking
    else if code =s= "parking_photo"
    then ok parking_photo
    else if code =s= "review"
    then ok review
    else if code =s= "review_photo"
    then ok review_photo
    else err (invalid ("unknown report target type: " +++ code))

pub as_code-of_from_code :
    (code : String) (s : ReportTargetType) → from_code code ≡ ok s → as_code s ≡ code
unfolding as_code from_code
as_code-of_from_code code parking h = ground (
  arith,
  eq_iff code "parking",
  eq_iff code "parking_photo",
  eq_iff code "review",
  eq_iff code "review_photo",
)
as_code-of_from_code code parking_photo h = ground (
  arith,
  eq_iff code "parking",
  eq_iff code "parking_photo",
  eq_iff code "review",
  eq_iff code "review_photo",
)
as_code-of_from_code code review h = ground (
  arith,
  eq_iff code "parking",
  eq_iff code "parking_photo",
  eq_iff code "review",
  eq_iff code "review_photo",
)
as_code-of_from_code code review_photo h = ground (
  arith,
  eq_iff code "parking",
  eq_iff code "parking_photo",
  eq_iff code "review",
  eq_iff code "review_photo",
)

pub from_code-as_code : (s : ReportTargetType) → from_code (as_code s) ≡ ok s
unfolding as_code from_code
from_code-as_code parking = refl
from_code-as_code parking_photo = refl
from_code-as_code review = refl
from_code-as_code review_photo = refl
