-- ===== src/Domain/Codes/AccountState.antt =====
-- `AccountState`: the lifecycle of an account, and its codes (crates/domain/src/auth.rs).
use bikesnest.Prelude.{String, Option, none, some, ◌≡◌, refl, arith, eq_iff, ◌=s=◌, if◌then◌else◌}

pub data AccountState : Type 0 where
  pending_email_verification active suspended deleted : AccountState

unfoldable pub as_code : AccountState → String
as_code pending_email_verification = "PENDING_EMAIL_VERIFICATION"
as_code active = "ACTIVE"
as_code suspended = "SUSPENDED"
as_code deleted = "DELETED"

unfoldable pub from_code : String → Option AccountState
from_code code =
    if code =s= "PENDING_EMAIL_VERIFICATION"
    then some pending_email_verification
    else if code =s= "ACTIVE"
    then some active
    else if code =s= "SUSPENDED"
    then some suspended
    else if code =s= "DELETED"
    then some deleted
    else none

pub as_code-of_from_code :
    (code : String) (s : AccountState) → from_code code ≡ some s → as_code s ≡ code
unfolding as_code from_code
as_code-of_from_code code pending_email_verification h = ground (
  arith,
  eq_iff code "PENDING_EMAIL_VERIFICATION",
  eq_iff code "ACTIVE",
  eq_iff code "SUSPENDED",
  eq_iff code "DELETED",
)
as_code-of_from_code code active h = ground (
  arith,
  eq_iff code "PENDING_EMAIL_VERIFICATION",
  eq_iff code "ACTIVE",
  eq_iff code "SUSPENDED",
  eq_iff code "DELETED",
)
as_code-of_from_code code suspended h = ground (
  arith,
  eq_iff code "PENDING_EMAIL_VERIFICATION",
  eq_iff code "ACTIVE",
  eq_iff code "SUSPENDED",
  eq_iff code "DELETED",
)
as_code-of_from_code code deleted h = ground (
  arith,
  eq_iff code "PENDING_EMAIL_VERIFICATION",
  eq_iff code "ACTIVE",
  eq_iff code "SUSPENDED",
  eq_iff code "DELETED",
)

pub from_code-as_code : (s : AccountState) → from_code (as_code s) ≡ some s
unfolding as_code from_code
from_code-as_code pending_email_verification = refl
from_code-as_code active = refl
from_code-as_code suspended = refl
from_code-as_code deleted = refl
