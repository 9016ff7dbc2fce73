-- ===== src/Domain/Codes/VerificationKind.antt =====
-- `VerificationKind`: the kinds of verification signal, and its codes (crates/domain/src/community.rs).
use bikesnest.Prelude.{
  String, ◌+++◌, Result, ok, err, ◌≡◌, refl, arith, eq_iff, ◌=s=◌, if◌then◌else◌,
}
use bikesnest.Domain.Error.{DomainError, invalid}

pub data VerificationKind : Type 0 where
  existence attribute parked_here : VerificationKind

unfoldable pub as_code : VerificationKind → String
as_code existence = "existence"
as_code attribute = "attribute"
as_code parked_here = "parked_here"

unfoldable pub from_code : String → Result DomainError VerificationKind
from_code code =
    if code =s= "existence"
    then ok existence
    else if code =s= "attribute"
    then ok attribute
    else if code =s= "parked_here"
    then ok parked_here
    else err (invalid ("unknown verification kind: " +++ code))

pub as_code-of_from_code :
    (code : String) (s : VerificationKind) → from_code code ≡ ok s → as_code s ≡ code
unfolding as_code from_code
as_code-of_from_code code existence h =
    ground (arith, eq_iff code "existence", eq_iff code "attribute", eq_iff code "parked_here")
as_code-of_from_code code attribute h =
    ground (arith, eq_iff code "existence", eq_iff code "attribute", eq_iff code "parked_here")
as_code-of_from_code code parked_here h =
    ground (arith, eq_iff code "existence", eq_iff code "attribute", eq_iff code "parked_here")

pub from_code-as_code : (s : VerificationKind) → from_code (as_code s) ≡ ok s
unfolding as_code from_code
from_code-as_code existence = refl
from_code-as_code attribute = refl
from_code-as_code parked_here = refl
