-- ===== src/Domain/Hours.antt =====
-- Opening hours (crates/domain/src/hours.rs).
-- A wall-clock time is the number of its nanoseconds from midnight; leap seconds are left out.
-- The conversion of an instant to a timezone is the chrono library's: `LocalClock`.
pub mod Week
mod Tests
use bikesnest.Prelude.{
  ℕ, ◌+◌, ◌-◌, ◌*◌, Bool, true, false, ◌&&◌, ◌||◌, not, List, [], ◌∷◌, ◌++◌, leb, ltb, ◌==◌,
  if◌then◌else◌,
}

abbrev pub nanos_per_day : ℕ
nanos_per_day = 86_400_000_000_000

abbrev pub NaiveTime : Type 0
NaiveTime = ℕ

-- 1 = Monday .. 7 = Sunday.
abbrev pub IsoDay : Type 0
IsoDay = ℕ

-- `from_hms_opt(h, m, s)`, for a valid time
unfoldable pub hms_s : ℕ → ℕ → ℕ → NaiveTime
hms_s h m s = (h * 3600 + m * 60 + s) * 1_000_000_000

unfoldable pub hms : ℕ → ℕ → NaiveTime
unfolding hms_s
hms h m = hms_s h m 0

pub record TimeRange : Type 0 where
  pub opens_at : NaiveTime
  pub closes_at : NaiveTime
  pub is_all_day : Bool

unfoldable pub new_range : NaiveTime → NaiveTime → TimeRange
new_range o c = record { opens_at = o; closes_at = c; is_all_day = false }

unfoldable pub all_day : TimeRange
unfolding hms_s
all_day = record { opens_at = hms_s 0 0 0; closes_at = hms_s 23 59 59; is_all_day = true }

pub data OpeningHours : Type 0 where
  unknown_hours : OpeningHours
  weekly : List (IsoDay × TimeRange) → OpeningHours

pub data OpenStatus : Type 0 where
  open_now closed_now unknown_status : OpenStatus

unfoldable pub is_unknown : OpeningHours → Bool
is_unknown unknown_hours = true
is_unknown (weekly rows) = false

unfoldable pub overnight : TimeRange → Bool
overnight range = not range.is_all_day && leb range.closes_at range.opens_at

-- The tests of one row in the loop of `status_at`.
unfoldable pub row_is_open : IsoDay → IsoDay → NaiveTime → IsoDay × TimeRange → Bool
unfolding overnight
row_is_open today yesterday t (day, range) =
    (day == today
      && (range.is_all_day
          || (overnight range && leb range.opens_at t)
          || (not (overnight range) && leb range.opens_at t && ltb t range.closes_at)))
    || (day == yesterday && overnight range && ltb t range.closes_at)

-- Previous ISO day (7 -> 6 .. 1 -> 7).
unfoldable pub previous_day : IsoDay → IsoDay
previous_day today = if today == 1 then 7 else today - 1

unfoldable pub scan_rows : IsoDay → NaiveTime → List (IsoDay × TimeRange) → OpenStatus
unfolding row_is_open previous_day
scan_rows today t [] = closed_now
scan_rows today t (row ∷ rows) =
    let rest = scan_rows today t rows in
    if row_is_open today (previous_day today) t row then open_now else rest

-- chrono and chrono-tz: the weekday and the wall-clock time of an instant in a timezone.
pub record LocalClock : Type 1 where
  pub Instant : Type 0
  pub Tz : Type 0
  pub weekday : Instant → Tz → IsoDay
  pub time : Instant → Tz → NaiveTime
  -- `with_nanosecond(0)`
  pub whole_second : NaiveTime → NaiveTime

module _ (clock : LocalClock) where
  open clock use {Instant, Tz, weekday, time, whole_second}

  unfoldable pub status_at : OpeningHours → Instant → Tz → OpenStatus
  unfolding scan_rows
  status_at unknown_hours at tz = unknown_status
  status_at (weekly rows) at tz = scan_rows (weekday at tz) (time at tz) rows

  unfoldable pub local_day_and_time : Instant → Tz → IsoDay × NaiveTime
  local_day_and_time at tz = (weekday at tz, whole_second (time at tz))

-- The rows of one day, in their order: `days[day - 1]`.
unfoldable pub rows_of_day : IsoDay → List (IsoDay × TimeRange) → List TimeRange
rows_of_day day [] = []
rows_of_day day ((d, range) ∷ rows) =
    let rest = rows_of_day day rows in if d == day then range ∷ rest else rest

unfoldable pub rows_by_day : OpeningHours → List (List TimeRange)
unfolding rows_of_day
rows_by_day unknown_hours = [] ∷ [] ∷ [] ∷ [] ∷ [] ∷ [] ∷ [] ∷ []
rows_by_day (weekly rows) =
    rows_of_day 1 rows
    ∷ rows_of_day 2 rows
    ∷ rows_of_day 3 rows
    ∷ rows_of_day 4 rows
    ∷ rows_of_day 5 rows
    ∷ rows_of_day 6 rows
    ∷ rows_of_day 7 rows
    ∷ []
