-- ===== src/Domain/Codes/AuthenticationProvider.antt =====
-- `AuthenticationProvider`: the kinds of login method, and its codes (crates/domain/src/auth.rs).
use bikesnest.Prelude.{String, Option, none, some, ◌≡◌, refl, arith, eq_iff, ◌=s=◌, if◌then◌else◌}

pub data AuthenticationProvider : Type 0 where
  password google : AuthenticationProvider

unfoldable pub as_code : AuthenticationProvider → String
as_code password = "password"
as_code google = "google"

unfoldable pub from_code : String → Option AuthenticationProvider
from_code code =
    if code =s= "password" then some password else if code =s= "google" then some google else none

pub as_code-of_from_code :
    (code : String) (s : AuthenticationProvider) → from_code code ≡ some s → as_code s ≡ code
unfolding as_code from_code
as_code-of_from_code code password h = ground (arith, eq_iff code "password", eq_iff code "google")
as_code-of_from_code code google h = ground (arith, eq_iff code "password", eq_iff code "google")

pub from_code-as_code : (s : AuthenticationProvider) → from_code (as_code s) ≡ some s
unfolding as_code from_code
from_code-as_code password = refl
from_code-as_code google = refl
