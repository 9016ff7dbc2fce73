-- ===== src/Domain/Codes/ProposalKind.antt =====
-- `ProposalKind`: the kinds of listing change that a rider can propose, and its codes (crates/domain/src/community.rs).
use bikesnest.Prelude.{
  String, ◌+++◌, Result, ok, err, ◌≡◌, refl, arith, eq_iff, ◌=s=◌, if◌then◌else◌,
}
use bikesnest.Domain.Error.{DomainError, invalid}

pub data ProposalKind : Type 0 where
  edit_details move_location change_existence : ProposalKind

unfoldable pub as_code : ProposalKind → String
as_code edit_details = "edit_details"
as_code move_location = "move_location"
as_code change_existence = "change_existence"

unfoldable pub from_code : String → Result DomainError ProposalKind
from_code code =
    if code =s= "edit_details"
    then ok edit_details
    else if code =s= "move_location"
    then ok move_location
    else if code =s= "change_existence"
    then ok change_existence
    else err (invalid ("unknown proposal kind: " +++ code))

pub as_code-of_from_code :
    (code : String) (s : ProposalKind) → from_code code ≡ ok s → as_code s ≡ code
unfolding as_code from_code
as_code-of_from_code code edit_details h =
    ground (
      arith,
      eq_iff code "edit_details",
      eq_iff code "move_location",
      eq_iff code "change_existence",
    )
as_code-of_from_code code move_location h =
    ground (
      arith,
      eq_iff code "edit_details",
      eq_iff code "move_location",
      eq_iff code "change_existence",
    )
as_code-of_from_code code change_existence h =
    ground (
      arith,
      eq_iff code "edit_details",
      eq_iff code "move_location",
      eq_iff code "change_existence",
    )

pub from_code-as_code : (s : ProposalKind) → from_code (as_code s) ≡ ok s
unfolding as_code from_code
from_code-as_code edit_details = refl
from_code-as_code move_location = refl
from_code-as_code change_existence = refl
