-- ===== src/Domain/Freshness.antt =====
-- Freshness of verified information (crates/domain/src/freshness.rs).
-- An instant is its signed number of nanoseconds from the epoch, and the difference of two is a
-- `chrono::Duration`, whose `num_days` rounds towards zero.
pub mod Order
mod Tests
use bikesnest.Prelude.{ℕ, suc, ◌/◌, String, Option, none, some, if◌then◌else◌}
use bikesnest.Prelude.Int.{ℤ, pos, negsuc, sub_ℕ, ◌-ℤ◌, ltb_ℤ}

abbrev pub DateTime : Type 0
DateTime = ℤ

abbrev pub nanos_per_day : ℕ
nanos_per_day = 86_400_000_000_000

-- `Duration::num_days`
unfoldable pub num_days : ℤ → ℤ
num_days (pos n) = pos (n / nanos_per_day)
num_days (negsuc n) = sub_ℕ 0 (suc n / nanos_per_day)

-- `i64::max(0)`
unfoldable pub at_least_zero : ℤ → ℤ
at_least_zero (pos n) = pos n
at_least_zero (negsuc n) = pos 0

pub record FreshnessThresholds : Type 0 where
  pub fresh_days : ℤ
  pub recent_days : ℤ
  pub aging_days : ℤ
  pub stale_days : ℤ

abbrev pub default_thresholds : FreshnessThresholds
default_thresholds = record {
  fresh_days = pos 30;
  recent_days = pos 90;
  aging_days = pos 180;
  stale_days = pos 365;
}

pub data FreshnessCategory : Type 0 where
  fresh recently_verified aging stale very_stale never : FreshnessCategory

unfoldable pub as_code : FreshnessCategory → String
as_code fresh = "fresh"
as_code recently_verified = "recently_verified"
as_code aging = "aging"
as_code stale = "stale"
as_code very_stale = "very_stale"
as_code never = "never"

unfoldable pub category_of_days : ℤ → FreshnessThresholds → FreshnessCategory
category_of_days days thresholds =
    if ltb_ℤ days thresholds.fresh_days
    then fresh
    else if ltb_ℤ days thresholds.recent_days
    then recently_verified
    else if ltb_ℤ days thresholds.aging_days
    then aging
    else if ltb_ℤ days thresholds.stale_days
    then stale
    else very_stale

unfoldable pub categorize : Option DateTime → DateTime → FreshnessThresholds → FreshnessCategory
unfolding num_days at_least_zero category_of_days
categorize none now thresholds = never
categorize (some verified) now thresholds =
    category_of_days (at_least_zero (num_days (now -ℤ verified))) thresholds
