-- ===== src/Domain/Codes/AttributeResult.antt =====
-- `AttributeResult`: the results of an attribute verification, and its codes (crates/domain/src/community.rs).
use bikesnest.Prelude.{
  String, ◌+++◌, Result, ok, err, ◌≡◌, refl, arith, eq_iff, ◌=s=◌, if◌then◌else◌,
}
use bikesnest.Domain.Error.{DomainError, invalid}

pub data AttributeResult : Type 0 where
  correct incorrect : AttributeResult

unfoldable pub as_code : AttributeResult → String
as_code correct = "correct"
as_code incorrect = "incorrect"

unfoldable pub from_code : String → Result DomainError AttributeResult
from_code code =
    if code =s= "correct"
    then ok correct
    else if code =s= "incorrect"
    then ok incorrect
    else err (invalid ("unknown attribute result: " +++ code))

pub as_code-of_from_code :
    (code : String) (s : AttributeResult) → from_code code ≡ ok s → as_code s ≡ code
unfolding as_code from_code
as_code-of_from_code code correct h = ground (arith, eq_iff code "correct", eq_iff code "incorrect")
as_code-of_from_code code incorrect h =
    ground (arith, eq_iff code "correct", eq_iff code "incorrect")

pub from_code-as_code : (s : AttributeResult) → from_code (as_code s) ≡ ok s
unfolding as_code from_code
from_code-as_code correct = refl
from_code-as_code incorrect = refl
