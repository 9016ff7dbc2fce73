-- ===== src/Domain/Codes/ProposalStatus.antt =====
-- `ProposalStatus`: the lifecycle of a proposal, and its codes (crates/domain/src/community.rs).
use bikesnest.Prelude.{
  String, ◌+++◌, Result, ok, err, ◌≡◌, refl, arith, eq_iff, ◌=s=◌, if◌then◌else◌,
}
use bikesnest.Domain.Error.{DomainError, invalid}

pub data ProposalStatus : Type 0 where
  pending approved rejected superseded : ProposalStatus

unfoldable pub as_code : ProposalStatus → String
as_code pending = "PENDING"
as_code approved = "APPROVED"
as_code rejected = "REJECTED"
as_code superseded = "SUPERSEDED"

unfoldable pub from_code : String → Result DomainError ProposalStatus
from_code code =
    if code =s= "PENDING"
    then ok pending
    else if code =s= "APPROVED"
    then ok approved
    else if code =s= "REJECTED"
    then ok rejected
    else if code =s= "SUPERSEDED"
    then ok superseded
    else err (invalid ("unknown proposal status: " +++ code))

pub as_code-of_from_code :
    (code : String) (s : ProposalStatus) → from_code code ≡ ok s → as_code s ≡ code
unfolding as_code from_code
as_code-of_from_code code pending h = ground (
  arith,
  eq_iff code "PENDING",
  eq_iff code "APPROVED",
  eq_iff code "REJECTED",
  eq_iff code "SUPERSEDED",
)
as_code-of_from_code code approved h = ground (
  arith,
  eq_iff code "PENDING",
  eq_iff code "APPROVED",
  eq_iff code "REJECTED",
  eq_iff code "SUPERSEDED",
)
as_code-of_from_code code rejected h = ground (
  arith,
  eq_iff code "PENDING",
  eq_iff code "APPROVED",
  eq_iff code "REJECTED",
  eq_iff code "SUPERSEDED",
)
as_code-of_from_code code superseded h = ground (
  arith,
  eq_iff code "PENDING",
  eq_iff code "APPROVED",
  eq_iff code "REJECTED",
  eq_iff code "SUPERSEDED",
)

pub from_code-as_code : (s : ProposalStatus) → from_code (as_code s) ≡ ok s
unfolding as_code from_code
from_code-as_code pending = refl
from_code-as_code approved = refl
from_code-as_code rejected = refl
from_code-as_code superseded = refl
