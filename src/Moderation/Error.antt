-- ===== src/Moderation/Error.antt =====
-- `ModerationError`, and how a database failure becomes one
-- (crates/application/src/moderation.rs, crates/infrastructure/src/db_error.rs).
use bikesnest.Prelude.{String, Option, none, some, ◌||◌, ◌=s=◌, if◌then◌else◌}

pub data ProposalField : Type 0 where
  lat lon timezone existence : ProposalField

pub data ModerationError : Type 0 where
  not_authorized self_resolve not_found target_not_found invalid_state already_reported :
      ModerationError
  stale_proposal invalid_reason rate_limited conflict unavailable internal : ModerationError
  invalid_field : String → ModerationError
  invalid_proposal_field : ProposalField → ModerationError

-- `classify_code`, and `From<DbFailure> for ModerationError`; the constraint is the driver's.
pub data DbFailure : Type 0 where
  db_conflict db_invalid : Option String → DbFailure
  db_retryable db_unavailable db_other : DbFailure

unfoldable pub classify_code : String → DbFailure
classify_code code =
    if code =s= "23505" || code =s= "23P01"
    then db_conflict none
    else if code =s= "23502" || code =s= "23503" || code =s= "23514"
    then db_invalid none
    else if code =s= "40001" || code =s= "40P01"
    then db_retryable
    else if code =s= "57014"
        || code =s= "57P01"
        || code =s= "57P02"
        || code =s= "57P03"
        || code =s= "53300"
        || code =s= "08000"
        || code =s= "08003"
        || code =s= "08006"
    then db_unavailable
    else db_other

unfoldable pub with_constraint : DbFailure → Option String → DbFailure
with_constraint (db_conflict old) c = db_conflict c
with_constraint (db_invalid old) c = db_invalid c
with_constraint db_retryable c = db_retryable
with_constraint db_unavailable c = db_unavailable
with_constraint db_other c = db_other

unfoldable pub invalid_hint : Option String → String
invalid_hint (some c) = c
invalid_hint none = "database constraint"

unfoldable pub of_failure : DbFailure → ModerationError
unfolding invalid_hint
of_failure (db_conflict c) = conflict
of_failure db_retryable = conflict
of_failure (db_invalid c) = invalid_field (invalid_hint c)
of_failure db_unavailable = unavailable
of_failure db_other = internal
