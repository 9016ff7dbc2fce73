-- ===== src/Domain/Codes/ExistenceResult.antt =====
-- `ExistenceResult`: the results of an existence verification, and its codes (crates/domain/src/community.rs).
use bikesnest.Prelude.{
  String, ◌+++◌, Result, ok, err, ◌≡◌, refl, arith, eq_iff, ◌=s=◌, if◌then◌else◌,
}
use bikesnest.Domain.Error.{DomainError, invalid}

pub data ExistenceResult : Type 0 where
  still_exists no_longer_exists info_changed : ExistenceResult

unfoldable pub as_code : ExistenceResult → String
as_code still_exists = "still_exists"
as_code no_longer_exists = "no_longer_exists"
as_code info_changed = "info_changed"

unfoldable pub from_code : String → Result DomainError ExistenceResult
from_code code =
    if code =s= "still_exists"
    then ok still_exists
    else if code =s= "no_longer_exists"
    then ok no_longer_exists
    else if code =s= "info_changed"
    then ok info_changed
    else err (invalid ("unknown existence result: " +++ code))

pub as_code-of_from_code :
    (code : String) (s : ExistenceResult) → from_code code ≡ ok s → as_code s ≡ code
unfolding as_code from_code
as_code-of_from_code code still_exists h =
    ground (
      arith,
      eq_iff code "still_exists",
      eq_iff code "no_longer_exists",
      eq_iff code "info_changed",
    )
as_code-of_from_code code no_longer_exists h =
    ground (
      arith,
      eq_iff code "still_exists",
      eq_iff code "no_longer_exists",
      eq_iff code "info_changed",
    )
as_code-of_from_code code info_changed h =
    ground (
      arith,
      eq_iff code "still_exists",
      eq_iff code "no_longer_exists",
      eq_iff code "info_changed",
    )

pub from_code-as_code : (s : ExistenceResult) → from_code (as_code s) ≡ ok s
unfolding as_code from_code
from_code-as_code still_exists = refl
from_code-as_code no_longer_exists = refl
from_code-as_code info_changed = refl
