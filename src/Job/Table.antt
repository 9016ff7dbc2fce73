-- ===== src/Job/Table.antt =====
-- The table `background_job` (migrations 0015 and 0026) and the statements on it.
-- One statement sees one clock reading: `now()` and `clock_timestamp()` are the same argument.
pub mod Laws
pub mod Held
use bikesnest.Prelude.{
  ℕ, suc, String, Bool, true, false, ◌&&◌, Option, none, some, List, [], ◌∷◌, Result, ok, err, ltb,
  ◌==◌, ◌=s=◌, if◌then◌else◌,
}
use bikesnest.Json.{Json, object, end}
use bikesnest.Job.Error.{JobRepoError, db, lost_ownership}
use bikesnest.Job.Schedule.{Instant}

pub data JobState : Type 0 where
  pending running succeeded failed : JobState

pub record JobRow : Type 0 where
  pub id : ℕ
  pub kind : String
  pub payload : Json
  pub state : JobState
  pub attempts : ℕ
  pub max_attempts : ℕ
  pub run_at : Instant
  pub schedule : Option Json
  pub claimed_by : Option String
  pub lease_expires_at : Option Instant
  pub heartbeat_at : Option Instant
  pub last_error : Option String
  pub started_at : Option Instant
  pub finished_at : Option Instant
  pub idempotency_key : Option String
  pub payload_redacted_at : Option Instant
  pub mail_recipient_hash : Option String
  pub mail_transition_audit_id : Option ℕ
  pub updated_at : Instant

abbrev pub JobTable : Type 0
JobTable = List JobRow

abbrev pub is_pending : JobState → Bool
is_pending pending = true
is_pending _ = false

abbrev pub is_running : JobState → Bool
is_running running = true
is_running _ = false

abbrev pub is_terminal : JobState → Bool
is_terminal succeeded = true
is_terminal failed = true
is_terminal _ = false

-- `column = $text`, `column > $t` and `column < $t` of a nullable column.
abbrev pub is_text : Option String → String → Bool
is_text none s = false
is_text (some t) s = t =s= s

abbrev pub is_after : Option Instant → Instant → Bool
is_after none t = false
is_after (some u) t = ltb t u

abbrev pub is_before : Option Instant → Instant → Bool
is_before none t = false
is_before (some u) t = ltb u t

abbrev pub or_else {ℓ} : {A : Type ℓ} → Option A → Option A → Option A
or_else none b = b
or_else (some a) b = some a

-- `UPDATE … SET … WHERE …`, and the number of rows that it affects.
unfoldable pub update_where : (JobRow → Bool) → (JobRow → JobRow) → JobTable → JobTable
update_where p set [] = []
update_where p set (r ∷ rest) = (if p r then set r else r) ∷ update_where p set rest

unfoldable pub count_where : (JobRow → Bool) → JobTable → ℕ
count_where p [] = 0
count_where p (r ∷ rest) = let more = count_where p rest in if p r then suc more else more

-- What the database answers to a statement: an error, or that it ran.
abbrev pub Fault : Type 0
Fault = Option String

abbrev pub is_mail : JobRow → Bool
is_mail r = r.kind =s= "email.send"

-- The columns that both terminal transitions scrub of a mail job.
unfoldable pub scrubbed : Instant → JobRow → JobRow
scrubbed now r =
    if is_mail r
    then record r {
      payload = object end;
      payload_redacted_at = or_else r.payload_redacted_at (some now);
      mail_recipient_hash = none;
      mail_transition_audit_id = none;
    }
    else r

-- `DEAD_LETTER_SET`
unfoldable pub dead_lettered : Instant → String → JobRow → JobRow
unfolding scrubbed
dead_lettered now error r = record (scrubbed now r) {
  state = failed;
  finished_at = some now;
  last_error = some error;
  claimed_by = none;
  lease_expires_at = none;
  heartbeat_at = none;
  updated_at = now;
}

-- `WHERE id = $1 AND state='running' AND claimed_by = $w AND lease_expires_at > clock_timestamp()`
unfoldable pub is_held : ℕ → String → Instant → JobRow → Bool
is_held id worker_id now r =
    r.id == id
    && is_running r.state
    && is_text r.claimed_by worker_id
    && is_after r.lease_expires_at now

-- A write that must affect one row, as all writes of a claim's owner do.
unfoldable pub owner_write :
    Fault
    → ℕ
    → (JobRow → Bool)
    → (JobRow → JobRow)
    → JobTable
    → JobTable × Result JobRepoError (Unit {0})
owner_write (some e) id p set t = (t, err (db e))
owner_write none id p set t =
    (update_where p set t, if count_where p t == 1 then ok tt else err (lost_ownership id))
