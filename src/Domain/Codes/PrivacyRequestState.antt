-- ===== src/Domain/Codes/PrivacyRequestState.antt =====
-- `PrivacyRequestState`: the lifecycle of a privacy request, and its codes (crates/domain/src/privacy.rs).
use bikesnest.Prelude.{
  String, ◌+++◌, Result, ok, err, ◌≡◌, refl, arith, eq_iff, ◌=s=◌, if◌then◌else◌,
}
use bikesnest.Domain.Error.{DomainError, invalid}

pub data PrivacyRequestState : Type 0 where
  opened in_progress completed declined : PrivacyRequestState

unfoldable pub as_code : PrivacyRequestState → String
as_code opened = "OPEN"
as_code in_progress = "IN_PROGRESS"
as_code completed = "COMPLETED"
as_code declined = "DECLINED"

unfoldable pub from_code : String → Result DomainError PrivacyRequestState
from_code code =
    if code =s= "OPEN"
    then ok opened
    else if code =s= "IN_PROGRESS"
    then ok in_progress
    else if code =s= "COMPLETED"
    then ok completed
    else if code =s= "DECLINED"
    then ok declined
    else err (invalid ("unknown privacy request state: " +++ code))

pub as_code-of_from_code :
    (code : String) (s : PrivacyRequestState) → from_code code ≡ ok s → as_code s ≡ code
unfolding as_code from_code
as_code-of_from_code code opened h = ground (
  arith,
  eq_iff code "OPEN",
  eq_iff code "IN_PROGRESS",
  eq_iff code "COMPLETED",
  eq_iff code "DECLINED",
)
as_code-of_from_code code in_progress h = ground (
  arith,
  eq_iff code "OPEN",
  eq_iff code "IN_PROGRESS",
  eq_iff code "COMPLETED",
  eq_iff code "DECLINED",
)
as_code-of_from_code code completed h = ground (
  arith,
  eq_iff code "OPEN",
  eq_iff code "IN_PROGRESS",
  eq_iff code "COMPLETED",
  eq_iff code "DECLINED",
)
as_code-of_from_code code declined h = ground (
  arith,
  eq_iff code "OPEN",
  eq_iff code "IN_PROGRESS",
  eq_iff code "COMPLETED",
  eq_iff code "DECLINED",
)

pub from_code-as_code : (s : PrivacyRequestState) → from_code (as_code s) ≡ ok s
unfolding as_code from_code
from_code-as_code opened = refl
from_code-as_code in_progress = refl
from_code-as_code completed = refl
from_code-as_code declined = refl
