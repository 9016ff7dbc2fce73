-- ===== src/Domain/Codes/ChangeKind.antt =====
-- `ChangeKind`: the kinds of revision, and its codes (crates/domain/src/community.rs).
use bikesnest.Prelude.{
  String, ◌+++◌, Result, ok, err, ◌≡◌, refl, arith, eq_iff, ◌=s=◌, if◌then◌else◌,
}
use bikesnest.Domain.Error.{DomainError, invalid}

pub data ChangeKind : Type 0 where
  create edit moderation verification : ChangeKind

unfoldable pub as_code : ChangeKind → String
as_code create = "create"
as_code edit = "edit"
as_code moderation = "moderation"
as_code verification = "verification"

unfoldable pub from_code : String → Result DomainError ChangeKind
from_code code =
    if code =s= "create"
    then ok create
    else if code =s= "edit"
    then ok edit
    else if code =s= "moderation"
    then ok moderation
    else if code =s= "verification"
    then ok verification
    else err (invalid ("unknown change kind: " +++ code))

pub as_code-of_from_code :
    (code : String) (s : ChangeKind) → from_code code ≡ ok s → as_code s ≡ code
unfolding as_code from_code
as_code-of_from_code code create h = ground (
  arith,
  eq_iff code "create",
  eq_iff code "edit",
  eq_iff code "moderation",
  eq_iff code "verification",
)
as_code-of_from_code code edit h = ground (
  arith,
  eq_iff code "create",
  eq_iff code "edit",
  eq_iff code "moderation",
  eq_iff code "verification",
)
as_code-of_from_code code moderation h = ground (
  arith,
  eq_iff code "create",
  eq_iff code "edit",
  eq_iff code "moderation",
  eq_iff code "verification",
)
as_code-of_from_code code verification h = ground (
  arith,
  eq_iff code "create",
  eq_iff code "edit",
  eq_iff code "moderation",
  eq_iff code "verification",
)

pub from_code-as_code : (s : ChangeKind) → from_code (as_code s) ≡ ok s
unfolding as_code from_code
from_code-as_code create = refl
from_code-as_code edit = refl
from_code-as_code moderation = refl
from_code-as_code verification = refl
