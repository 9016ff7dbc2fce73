-- ===== src/Job/Schedule.antt =====
-- When a job runs next (crates/infrastructure/src/job/schedule.rs).
-- An instant is its microseconds from the epoch.
pub mod Next
pub mod Backoff
use bikesnest.Prelude.{
  ℕ, suc, ◌+◌, ◌-◌, ◌*◌, ◌^◌, ◌<◌, ◌≡◌, min, String, ◌+++◌, Bool, true, false, Option, none, some,
  Result, ok, err, ltb, leb, ◌==◌, if◌then◌else◌, is_whitespace, show_ℕ,
}
use bikesnest.Prelude.Int.{ℤ, pos, negsuc}
use bikesnest.Json.{Json, get, is_null, is_object, as_str, as_i64, and_then}
use bikesnest.Job.Error.{JobError, permanent, Interrupted, raised, panics}

abbrev pub Instant : Type 0
Instant = ℕ

-- The cron crate, and the texts that error messages quote: `Display` of a JSON value, `Debug` of a
-- text. A schedule's next tick lies after the instant that is asked about. `latest` and `earliest`
-- are the range of chrono's `DateTime<Utc>`: the microseconds from the epoch to its last instant,
-- and back to its first. Arithmetic that leaves the range panics; a `Duration` reaches further.
pub record CronLib : Type 1 where
  pub CronSchedule : Type 0
  pub from_str : String → Result String CronSchedule
  pub after : CronSchedule → Instant → Option Instant
  pub after_later : (s : CronSchedule) (now t : Instant) → after s now ≡ some t → now < t
  pub latest : ℕ
  pub earliest : ℕ
  pub display : Json → String
  pub debug : String → String

-- `expr.split_whitespace().count()`; the flag tells whether a word is being read.
unfoldable pub word_count : Bool → String → ℕ
word_count inside String.[] = 0
word_count inside (String.◌∷◌ c s) =
    let more = word_count (if is_whitespace c then false else true) s in
    if is_whitespace c then more else if inside then more else suc more

unfoldable pub normalize_cron : String → String
unfolding word_count
normalize_cron expr = if word_count false expr == 5 then "0 " +++ expr else expr

show_signed : ℤ → String
show_signed (pos n) = show_ℕ n
show_signed (negsuc n) = "-" +++ show_ℕ (suc n)

module _ (lib : CronLib) where
  open lib use {CronSchedule, from_str, after, latest, display, debug}

  unfoldable pub cron_tick :
      String → Option Instant → Result (Interrupted JobError) (Option Instant)
  cron_tick expr none =
      err (raised (permanent ("cron " +++ (debug expr +++ " yields no future run"))))
  cron_tick expr (some next) = ok (some next)

  unfoldable pub cron_next :
      String → Instant → Result String CronSchedule → Result (Interrupted JobError) (Option Instant)
  unfolding cron_tick
  cron_next expr now (err e) =
      err (raised (permanent ("invalid cron expression " +++ (debug expr +++ (": " +++ e)))))
  cron_next expr now (ok parsed) = cron_tick expr (after parsed now)

  unfoldable pub every_next : ℤ → Instant → Result (Interrupted JobError) (Option Instant)
  unfolding show_signed
  every_next (pos n) now =
      if n == 0
      then err (raised (permanent "every_seconds must be positive, got 0"))
      else if leb (now + n * 1_000_000) latest
      then ok (some (now + n * 1_000_000))
      else err panics
  every_next (negsuc n) now =
      err (raised (permanent ("every_seconds must be positive, got " +++ show_signed (negsuc n))))

  unfoldable pub field_next :
      Json → Instant → Option ℤ → Option String → Result (Interrupted JobError) (Option Instant)
  unfolding cron_next every_next normalize_cron
  field_next s now (some secs) cron = every_next secs now
  field_next s now none (some expr) = cron_next expr now (from_str (normalize_cron expr))
  field_next s now none none = err (raised (permanent ("unsupported schedule: " +++ display s)))

  unfoldable pub next_run_at :
      Option Json → Instant → Result (Interrupted JobError) (Option Instant)
  unfolding field_next
  next_run_at none now = ok none
  next_run_at (some s) now =
      if is_null s
      then ok none
      else if is_object s
      then field_next s now (and_then (get "every_seconds" s) as_i64)
          (and_then (get "cron" s) as_str)
      else err (raised (permanent ("schedule must be an object, got " +++ display s)))

abbrev pub u64_max : ℕ
u64_max = 18_446_744_073_709_551_615

-- `u64::saturating_mul`, `u64::saturating_add`
abbrev pub saturate : ℕ → ℕ
saturate n = min n u64_max

-- `jitter` is what the generator drew from `[0, base_ms.max(1))`. An attempt is a positive `i32`.
unfoldable pub backoff_ms : ℕ → ℕ → ℕ → ℕ
backoff_ms attempt base_ms jitter =
    let exp = attempt - 1 in
    let exponential = saturate (base_ms * 2 ^ min exp 63) in saturate (exponential + jitter)

-- `delay_ms as i64`
unfoldable pub as_signed : ℕ → ℤ
as_signed n = if ltb n (2 ^ 63) then pos n else negsuc (u64_max - n)
