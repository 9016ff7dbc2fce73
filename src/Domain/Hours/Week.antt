-- ===== src/Domain/Hours/Week.antt =====
-- The schedule as intervals of a circular week, against `status_at`.
use bikesnest.Prelude.{
  ℕ, ◌+◌, ◌-◌, ◌*◌, ◌%◌, ◌≤◌, ◌<◌, ◌≡◌, refl, ◌↔◌, ◌⊎◌, inl, inr, true, List, [], ◌∷◌, arith,
  if◌then◌else◌, Bool-cases, All,
}
use bikesnest.Domain.Hours.{
  nanos_per_day, NaiveTime, IsoDay, TimeRange, weekly, open_now, overnight, row_is_open,
  previous_day, scan_rows, LocalClock, status_at,
}

abbrev pub nanos_per_week : ℕ
nanos_per_week = 604_800_000_000_000

-- The instant of the week that a weekday and a time of it are.
abbrev pub week_time : IsoDay → NaiveTime → ℕ
week_time day t = (day - 1) * nanos_per_day + t

-- Where a row starts in the week, and how long it lasts.
abbrev pub starts_at : IsoDay × TimeRange → ℕ
starts_at (day, range) = if range.is_all_day then week_time day 0 else week_time day range.opens_at

-- A range that does not close after it opens closes on the next day.
abbrev pub lasts : TimeRange → ℕ
lasts range =
    if range.is_all_day
    then nanos_per_day
    else if overnight range
    then nanos_per_day + range.closes_at - range.opens_at
    else range.closes_at - range.opens_at

-- The instant `now` of the week lies in the interval of the row, counted round the week.
abbrev pub Covers : ℕ → IsoDay × TimeRange → Type 0
Covers now row = (now + nanos_per_week - starts_at row) % nanos_per_week < lasts row.1

abbrev pub IsRow : IsoDay × TimeRange → Type 0
IsRow (day, range) =
    (1 ≤ day) × (day ≤ 7) × (range.opens_at < nanos_per_day) × (range.closes_at < nanos_per_day)

-- Some row of the list covers the instant.
pub data SomeCovers (now : ℕ) : List (IsoDay × TimeRange) → Type 0 where
  here :
      {row : IsoDay × TimeRange} {rows : List (IsoDay × TimeRange)}
      → Covers now row
      → SomeCovers now (row ∷ rows)
  there :
      {row : IsoDay × TimeRange} {rows : List (IsoDay × TimeRange)}
      → SomeCovers now rows
      → SomeCovers now (row ∷ rows)

row_is_open_iff :
    (today : IsoDay) (t : NaiveTime) (row : IsoDay × TimeRange)
    → 1 ≤ today
    → today ≤ 7
    → t < nanos_per_day
    → IsRow row
    → (row_is_open today (previous_day today) t row ≡ true) ↔ Covers (week_time today t) row
unfolding row_is_open previous_day
row_is_open_iff today t (day, range) lo hi ht ok = ground arith

not-SomeCovers-nil : {now : ℕ} → ¬ SomeCovers now []
not-SomeCovers-nil s = absurd (gone s refl)
  where
    gone : {now : ℕ} {rows : List (IsoDay × TimeRange)} → SomeCovers now rows → rows ≡ [] → ⊥
    gone (here h) e = cc
    gone (there h) e = cc

SomeCovers-cons :
    {now : ℕ} {row : IsoDay × TimeRange} {rows : List (IsoDay × TimeRange)}
    → SomeCovers now (row ∷ rows)
    → Covers now row ⊎ SomeCovers now rows
SomeCovers-cons (here h) = inl h
SomeCovers-cons (there h) = inr h

scan_rows_iff :
    (today : IsoDay) (t : NaiveTime) (rows : List (IsoDay × TimeRange))
    → 1 ≤ today
    → today ≤ 7
    → t < nanos_per_day
    → All IsRow rows
    → (scan_rows today t rows ≡ open_now) ↔ SomeCovers (week_time today t) rows
unfolding scan_rows
scan_rows_iff today t [] lo hi ht ok = (λ e. cc, λ s. absurd (not-SomeCovers-nil s))
scan_rows_iff today t (row ∷ rows) lo hi ht ok =
    let (to, from) = row_is_open_iff today t row lo hi ht ok.0 in
    let (to', from') = scan_rows_iff today t rows lo hi ht ok.1 in
    elim (Bool-cases (row_is_open today (previous_day today) t row)) [
      | inl yes_open ↦ rw yes_open (λ e. here (to yes_open), λ s. refl)
      | inr closed ↦ rw closed (
        λ e. there (to' e),
        λ s. elim (SomeCovers-cons s) [ inl c ↦ absurd (cc (from c)) | inr later ↦ from' later ],
      )
    ]

module _ (clock : LocalClock) where
  open clock use {Instant, Tz, weekday, time}

  -- On a schedule whose rows have weekdays and times of the day, at an instant whose local weekday and
  -- time are valid: the status is `open_now` exactly when some row covers that moment of the local
  -- week, where a row is an interval of the circular week, a full day for an all-day row, and until
  -- the next day for a row that does not close after it opens.
  pub status_at-open_iff :
      (rows : List (IsoDay × TimeRange)) (at : Instant) (tz : Tz)
      → All IsRow rows
      → 1 ≤ weekday at tz
      → weekday at tz ≤ 7
      → time at tz < nanos_per_day
      → (status_at clock (weekly rows) at tz ≡ open_now)
        ↔ SomeCovers (week_time (weekday at tz) (time at tz)) rows
  unfolding status_at
  status_at-open_iff rows at tz ok lo hi ht =
      scan_rows_iff (weekday at tz) (time at tz) rows lo hi ht ok
