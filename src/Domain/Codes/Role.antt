-- ===== src/Domain/Codes/Role.antt =====
-- `Role`: the granted roles, and its codes (crates/domain/src/auth.rs).
use bikesnest.Prelude.{String, Option, none, some, ◌≡◌, refl, arith, eq_iff, ◌=s=◌, if◌then◌else◌}

pub data Role : Type 0 where
  user moderator admin : Role

unfoldable pub as_code : Role → String
as_code user = "USER"
as_code moderator = "MODERATOR"
as_code admin = "ADMIN"

unfoldable pub from_code : String → Option Role
from_code code =
    if code =s= "USER"
    then some user
    else if code =s= "MODERATOR"
    then some moderator
    else if code =s= "ADMIN"
    then some admin
    else none

pub as_code-of_from_code : (code : String) (s : Role) → from_code code ≡ some s → as_code s ≡ code
unfolding as_code from_code
as_code-of_from_code code user h =
    ground (arith, eq_iff code "USER", eq_iff code "MODERATOR", eq_iff code "ADMIN")
as_code-of_from_code code moderator h =
    ground (arith, eq_iff code "USER", eq_iff code "MODERATOR", eq_iff code "ADMIN")
as_code-of_from_code code admin h =
    ground (arith, eq_iff code "USER", eq_iff code "MODERATOR", eq_iff code "ADMIN")

pub from_code-as_code : (s : Role) → from_code (as_code s) ≡ some s
unfolding as_code from_code
from_code-as_code user = refl
from_code-as_code moderator = refl
from_code-as_code admin = refl
