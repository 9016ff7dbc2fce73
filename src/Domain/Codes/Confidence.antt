-- ===== src/Domain/Codes/Confidence.antt =====
-- `Confidence`: the computed confidence in a location, and its codes (crates/domain/src/community.rs).
use bikesnest.Prelude.{String, Option, none, some, ◌≡◌, refl, arith, eq_iff, ◌=s=◌, if◌then◌else◌}

pub data Confidence : Type 0 where
  reported verified recently_verified stale conflicting : Confidence

unfoldable pub as_code : Confidence → String
as_code reported = "reported"
as_code verified = "verified"
as_code recently_verified = "recently_verified"
as_code stale = "stale"
as_code conflicting = "conflicting"

unfoldable pub from_code : String → Option Confidence
from_code code =
    if code =s= "reported"
    then some reported
    else if code =s= "verified"
    then some verified
    else if code =s= "recently_verified"
    then some recently_verified
    else if code =s= "stale"
    then some stale
    else if code =s= "conflicting"
    then some conflicting
    else none

pub as_code-of_from_code :
    (code : String) (s : Confidence) → from_code code ≡ some s → as_code s ≡ code
unfolding as_code from_code
as_code-of_from_code code reported h = ground (
  arith,
  eq_iff code "reported",
  eq_iff code "verified",
  eq_iff code "recently_verified",
  eq_iff code "stale",
  eq_iff code "conflicting",
)
as_code-of_from_code code verified h = ground (
  arith,
  eq_iff code "reported",
  eq_iff code "verified",
  eq_iff code "recently_verified",
  eq_iff code "stale",
  eq_iff code "conflicting",
)
as_code-of_from_code code recently_verified h = ground (
  arith,
  eq_iff code "reported",
  eq_iff code "verified",
  eq_iff code "recently_verified",
  eq_iff code "stale",
  eq_iff code "conflicting",
)
as_code-of_from_code code stale h = ground (
  arith,
  eq_iff code "reported",
  eq_iff code "verified",
  eq_iff code "recently_verified",
  eq_iff code "stale",
  eq_iff code "conflicting",
)
as_code-of_from_code code conflicting h = ground (
  arith,
  eq_iff code "reported",
  eq_iff code "verified",
  eq_iff code "recently_verified",
  eq_iff code "stale",
  eq_iff code "conflicting",
)

pub from_code-as_code : (s : Confidence) → from_code (as_code s) ≡ some s
unfolding as_code from_code
from_code-as_code reported = refl
from_code-as_code verified = refl
from_code-as_code recently_verified = refl
from_code-as_code stale = refl
from_code-as_code conflicting = refl
