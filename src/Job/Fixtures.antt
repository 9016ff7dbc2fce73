-- ===== src/Job/Fixtures.antt =====
-- A cron library, a queue and its jobs, for the tests.
use bikesnest.Prelude.{◌+◌, ◌<◌, ◌≡◌, none, some, [], ◌∷◌, ok, arith}
use bikesnest.Prelude.Int.{pos}
use bikesnest.Json.{Json, object, field, end, int}
use bikesnest.Job.Schedule.{CronLib, Instant}
use bikesnest.Job.Table.{JobState, pending, running, JobRow, JobTable}
use bikesnest.Job.Claim.{ClaimedJob}
use bikesnest.Job.Worker.{WorkerState}
use bikesnest.Job.Recurring.{RecurringKind}

pub tick_later : (s : Unit {0}) (now t : Instant) → some (now + 1_000_000) ≡ some t → now < t
tick_later s now t h = ground arith

-- A cron crate that knows one schedule, the next second, and the range of chrono's instants: from
-- the year -262143 to the year 262142.
abbrev pub cron_lib : CronLib
cron_lib = record {
  CronSchedule = Unit {0};
  from_str = λ s. ok tt;
  after = λ s now. some (now + 1_000_000);
  after_later = tick_later;
  latest = 8_210_266_876_799_999_999;
  earliest = 8_334_601_228_800_000_000;
  display = λ j. "json";
  debug = λ s. s;
}

abbrev pub daily : Json
daily = object (field "every_seconds" (int (pos 86_400)) end)

-- A recurring job on its last attempt, held by "w" until 100, and a waiting mail.
abbrev pub held_row : JobRow
held_row = record {
  id = 1;
  kind = "retention";
  payload = object end;
  state = running;
  attempts = 5;
  max_attempts = 5;
  run_at = 0;
  schedule = some daily;
  claimed_by = some "w";
  lease_expires_at = some 100;
  heartbeat_at = some 40;
  last_error = none;
  started_at = some 40;
  finished_at = none;
  idempotency_key = some "recurring:retention";
  payload_redacted_at = none;
  mail_recipient_hash = none;
  mail_transition_audit_id = none;
  updated_at = 40;
}

abbrev pub held_mail : JobRow
held_mail = record held_row { id = 2; kind = "email.send"; schedule = none; idempotency_key = none }

abbrev pub two_jobs : JobTable
two_jobs = held_row ∷ held_mail ∷ []

abbrev pub claimed_job : ClaimedJob
claimed_job = record {
  id = 1;
  kind = "retention";
  payload = object end;
  attempts = 5;
  max_attempts = 5;
  schedule = some daily;
  owner = "w";
}

abbrev pub claimed_mail : ClaimedJob
claimed_mail = record claimed_job { id = 2; kind = "email.send"; schedule = none }

abbrev pub worker_state : WorkerState
worker_state = record { table = two_jobs; observable_failures = 0 }

abbrev pub retention_kind : RecurringKind
retention_kind = record {
  job_kind = "retention";
  payload = object end;
  schedule = daily;
  idempotency_key = "recurring:retention";
  max_attempts = 5;
}

-- A mail that waits, to be claimed by "x".
abbrev pub waiting_mail : JobRow
waiting_mail = record held_mail {
  id = 3;
  state = pending;
  attempts = 0;
  claimed_by = none;
  lease_expires_at = none;
}

-- A mail that ended at 10.
abbrev pub sent_mail : JobRow
sent_mail = record waiting_mail { id = 4; state = JobState.succeeded; finished_at = some 10 }
