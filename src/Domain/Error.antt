-- ===== src/Domain/Error.antt =====
-- `DomainError` (crates/domain/src/lib.rs).
use bikesnest.Prelude.{String, ◌+++◌}

pub data DomainError : Type 0 where
  empty_email weak_password : DomainError
  invalid_email invalid invalid_role invalid_state : String → DomainError

-- Its `Display`.
unfoldable pub domain_error_text : DomainError → String
domain_error_text empty_email = "email must not be empty"
domain_error_text (invalid_email e) = "email is not valid: " +++ e
domain_error_text (invalid what) = what
domain_error_text weak_password = "password does not meet the policy"
domain_error_text (invalid_role code) = "unknown role code: " +++ code
domain_error_text (invalid_state code) = "unknown account state code: " +++ code
