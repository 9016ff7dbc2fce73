-- ===== src/Domain/Hours/Tests.antt =====
-- Runs of the schedule, and the theorems at concrete schedules.
use bikesnest.Prelude.{ℕ, ◌≡◌, refl, ◌↔◌, false, List, [], ◌∷◌, arith}
use bikesnest.Domain.Hours.{
  IsoDay, TimeRange, new_range, hms, all_day, weekly, open_now, closed_now, LocalClock, status_at,
}
use bikesnest.Domain.Hours.Week.{SomeCovers, week_time, status_at-open_iff}

-- A clock whose instants are the local weekday and time.
abbrev local_clock : LocalClock
local_clock = record {
  Instant = ℕ × ℕ;
  Tz = Unit {0};
  weekday = λ at tz. at.0;
  time = λ at tz. at.1;
  whole_second = λ t. t;
}

abbrev friday_night : List (IsoDay × TimeRange)
friday_night =
    (5, record { opens_at = 79_200_000_000_000; closes_at = 7_200_000_000_000; is_all_day = false })
    ∷ []

new_range-hms : (5, new_range (hms 22 0) (hms 2 0)) ∷ [] ≡ friday_night
unfolding new_range hms
new_range-hms = refl

abbrev saturday_one : ℕ × ℕ
saturday_one = (6, 3_600_000_000_000)

friday_night_open : status_at local_clock (weekly friday_night) saturday_one tt ≡ open_now
unfolding status_at
friday_night_open = refl

all_day_tests :
    (status_at local_clock (weekly ((6, all_day) ∷ [])) saturday_one tt ≡ open_now)
    × (status_at local_clock (weekly ((7, all_day) ∷ [])) saturday_one tt ≡ closed_now)
unfolding status_at all_day
all_day_tests = (refl, refl)

status_at-open_iff_example :
    (status_at local_clock (weekly friday_night) saturday_one tt ≡ open_now)
    ↔ SomeCovers (week_time 6 3_600_000_000_000) friday_night
status_at-open_iff_example =
    status_at-open_iff local_clock friday_night saturday_one tt (omega arith) (omega arith)
      (omega arith) (omega arith)
