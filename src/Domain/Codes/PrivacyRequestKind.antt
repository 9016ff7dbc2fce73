-- ===== src/Domain/Codes/PrivacyRequestKind.antt =====
-- `PrivacyRequestKind`: the kinds of data-subject request, and its codes (crates/domain/src/privacy.rs).
use bikesnest.Prelude.{
  String, ◌+++◌, Result, ok, err, ◌≡◌, refl, arith, eq_iff, ◌=s=◌, if◌then◌else◌,
}
use bikesnest.Domain.Error.{DomainError, invalid}

pub data PrivacyRequestKind : Type 0 where
  access rectification deletion export restriction objection consent_withdrawal : PrivacyRequestKind

unfoldable pub as_code : PrivacyRequestKind → String
as_code access = "access"
as_code rectification = "rectification"
as_code deletion = "deletion"
as_code export = "export"
as_code restriction = "restriction"
as_code objection = "objection"
as_code consent_withdrawal = "consent_withdrawal"

unfoldable pub from_code : String → Result DomainError PrivacyRequestKind
from_code code =
    if code =s= "access"
    then ok access
    else if code =s= "rectification"
    then ok rectification
    else if code =s= "deletion"
    then ok deletion
    else if code =s= "export"
    then ok export
    else if code =s= "restriction"
    then ok restriction
    else if code =s= "objection"
    then ok objection
    else if code =s= "consent_withdrawal"
    then ok consent_withdrawal
    else err (invalid ("unknown privacy request kind: " +++ code))

pub as_code-of_from_code :
    (code : String) (s : PrivacyRequestKind) → from_code code ≡ ok s → as_code s ≡ code
unfolding as_code from_code
as_code-of_from_code code access h = ground (
  arith,
  eq_iff code "access",
  eq_iff code "rectification",
  eq_iff code "deletion",
  eq_iff code "export",
  eq_iff code "restriction",
  eq_iff code "objection",
  eq_iff code "consent_withdrawal",
)
as_code-of_from_code code rectification h = ground (
  arith,
  eq_iff code "access",
  eq_iff code "rectification",
  eq_iff code "deletion",
  eq_iff code "export",
  eq_iff code "restriction",
  eq_iff code "objection",
  eq_iff code "consent_withdrawal",
)
as_code-of_from_code code deletion h = ground (
  arith,
  eq_iff code "access",
  eq_iff code "rectification",
  eq_iff code "deletion",
  eq_iff code "export",
  eq_iff code "restriction",
  eq_iff code "objection",
  eq_iff code "consent_withdrawal",
)
as_code-of_from_code code export h = ground (
  arith,
  eq_iff code "access",
  eq_iff code "rectification",
  eq_iff code "deletion",
  eq_iff code "export",
  eq_iff code "restriction",
  eq_iff code "objection",
  eq_iff code "consent_withdrawal",
)
as_code-of_from_code code restriction h = ground (
  arith,
  eq_iff code "access",
  eq_iff code "rectification",
  eq_iff code "deletion",
  eq_iff code "export",
  eq_iff code "restriction",
  eq_iff code "objection",
  eq_iff code "consent_withdrawal",
)
as_code-of_from_code code objection h = ground (
  arith,
  eq_iff code "access",
  eq_iff code "rectification",
  eq_iff code "deletion",
  eq_iff code "export",
  eq_iff code "restriction",
  eq_iff code "objection",
  eq_iff code "consent_withdrawal",
)
as_code-of_from_code code consent_withdrawal h = ground (
  arith,
  eq_iff code "access",
  eq_iff code "rectification",
  eq_iff code "deletion",
  eq_iff code "export",
  eq_iff code "restriction",
  eq_iff code "objection",
  eq_iff code "consent_withdrawal",
)

pub from_code-as_code : (s : PrivacyRequestKind) → from_code (as_code s) ≡ ok s
unfolding as_code from_code
from_code-as_code access = refl
from_code-as_code rectification = refl
from_code-as_code deletion = refl
from_code-as_code export = refl
from_code-as_code restriction = refl
from_code-as_code objection = refl
from_code-as_code consent_withdrawal = refl
