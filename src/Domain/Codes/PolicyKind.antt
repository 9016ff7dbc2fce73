-- ===== src/Domain/Codes/PolicyKind.antt =====
-- `PolicyKind`: the kinds of legal page, and its codes (crates/domain/src/privacy.rs).
use bikesnest.Prelude.{
  String, ◌+++◌, Result, ok, err, ◌≡◌, refl, arith, eq_iff, ◌=s=◌, if◌then◌else◌,
}
use bikesnest.Domain.Error.{DomainError, invalid}

pub data PolicyKind : Type 0 where
  privacy terms cookies : PolicyKind

unfoldable pub as_code : PolicyKind → String
as_code privacy = "privacy"
as_code terms = "terms"
as_code cookies = "cookies"

unfoldable pub from_code : String → Result DomainError PolicyKind
from_code code =
    if code =s= "privacy"
    then ok privacy
    else if code =s= "terms"
    then ok terms
    else if code =s= "cookies"
    then ok cookies
    else err (invalid ("unknown policy kind: " +++ code))

pub as_code-of_from_code :
    (code : String) (s : PolicyKind) → from_code code ≡ ok s → as_code s ≡ code
unfolding as_code from_code
as_code-of_from_code code privacy h =
    ground (arith, eq_iff code "privacy", eq_iff code "terms", eq_iff code "cookies")
as_code-of_from_code code terms h =
    ground (arith, eq_iff code "privacy", eq_iff code "terms", eq_iff code "cookies")
as_code-of_from_code code cookies h =
    ground (arith, eq_iff code "privacy", eq_iff code "terms", eq_iff code "cookies")

pub from_code-as_code : (s : PolicyKind) → from_code (as_code s) ≡ ok s
unfolding as_code from_code
from_code-as_code privacy = refl
from_code-as_code terms = refl
from_code-as_code cookies = refl
