-- ===== src/Job/Error.antt =====
-- The errors of job handlers and of the job repository.
use bikesnest.Prelude.{ℕ, String, List}

pub data JobError : Type 0 where
  failed permanent : String → JobError

-- `db` carries the text of the `sqlx::Error`.
pub data JobRepoError : Type 0 where
  db invalid_recurring reconciliation_deferred : String → JobRepoError
  bootstrap_incomplete : List String → JobRepoError
  invalid_mail_credential : JobRepoError
  lost_ownership : ℕ → JobRepoError

-- How a call that can panic fails: with its error, or by the panic.
pub data Interrupted {ℓ} (E : Type ℓ) : Type ℓ where
  raised : E → Interrupted E
  panics : Interrupted E
