-- ===== src/Listing/Snapshot/Hours.antt =====
-- Which opening hours the table takes (`write_hours`,
-- crates/infrastructure/src/community/contribution.rs, and the table's key and check).
use bikesnest.Prelude.{
  ℕ, ◌≡◌, refl, ap, sym, ◌∙◌, Bool, true, false, ◌&&◌, ◌||◌, not, none, some, List, [], ◌∷◌, ◌++◌,
  any, keep, map, leb, ◌==◌, if◌then◌else◌, Bool-cases, inl, inr, arith, ==_iff,
}
use mathlib.Core.List.{append_assoc, append-nil}
use bikesnest.Domain.Hours.{TimeRange, OpeningHours, unknown_hours, weekly, IsoDay}
use bikesnest.Domain.ParkingEdit.Read.{to_option}
use bikesnest.Listing.{HourRow}
use bikesnest.Listing.Snapshot.{
  hour_row, hour_rows, same_hours, has_day, insert_hours, write_hours, stored_range, whole_micros,
}

-- Two rows of a week that are stored as the same hours of the same day.
abbrev pub same_row : IsoDay × TimeRange → IsoDay × TimeRange → Bool
same_row (d, r) (e, s) =
    (d == e)
    && (whole_micros (TimeRange.opens_at (stored_range r))
        == whole_micros (TimeRange.opens_at (stored_range s)))
    && (whole_micros (TimeRange.closes_at (stored_range r))
        == whole_micros (TimeRange.closes_at (stored_range s)))

-- The days are from 1 to 7, and no day has the same hours twice.
abbrev pub are_storable : List (IsoDay × TimeRange) → Bool
are_storable [] = true
are_storable ((d, r) ∷ rows) =
    leb 1 d && leb d 7 && not (any (same_row (d, r)) rows) && are_storable rows

abbrev pub is_storable : OpeningHours → Bool
is_storable unknown_hours = true
is_storable (weekly rows) = are_storable rows

-- No row of the first list has the key of one of the second.
abbrev apart : List HourRow → List HourRow → Bool
apart [] old = true
apart (r ∷ rows) old = not (any (same_hours r) old) && apart rows old

abbrev distinct : List HourRow → Bool
distinct [] = true
distinct (r ∷ rows) = has_day r && not (any (same_hours r) rows) && distinct rows

same_hours_comm : (a b : HourRow) → same_hours a b ≡ same_hours b a
same_hours_comm a b = ground arith

any-append_one :
    (p : HourRow → Bool) (xs : List HourRow) (y : HourRow)
    → any p (xs ++ (y ∷ [])) ≡ (any p xs || p y)
any-append_one p [] y = ground arith
any-append_one p (x ∷ xs) y = ground (arith, any-append_one p xs y)

apart-append_one :
    (rows old : List HourRow) (r : HourRow)
    → apart rows (old ++ (r ∷ [])) ≡ (apart rows old && not (any (same_hours r) rows))
apart-append_one [] old r = refl
apart-append_one (x ∷ rows) old r =
    ground
      (arith, any-append_one (same_hours x) old r, same_hours_comm x r, apart-append_one rows old r)

regroup :
    (a b c : Bool) (x y : List HourRow)
    → x ≡ y
    → (if (a && b) && c then some x else none) ≡ (if a && (b && c) then some y else none)
regroup true true true x y e = ap some e
regroup true true false x y e = refl
regroup true false c x y e = refl
regroup false b c x y e = refl

barred : (a : Bool) (x : List HourRow) → none ≡ (if a && false then some x else none)
barred true x = refl
barred false x = refl

-- Whether an insertion goes through, and what it leaves.
insert_hours-decides :
    (new old : List HourRow)
    → to_option (insert_hours new old)
      ≡ (if apart new old && distinct new then some (old ++ new) else none)
unfolding insert_hours
insert_hours-decides [] old = ap some (sym (append-nil old))
insert_hours-decides (r ∷ new) old = elim (Bool-cases (any (same_hours r) old)) [
  | inl taken ↦ elim (Bool-cases (has_day r)) [
    | inl day ↦ rw (taken, day) refl
    | inr no_day ↦ rw (taken, no_day) refl
  ]
  | inr free ↦ elim (Bool-cases (has_day r)) [
    | inl day ↦
        rw (free, day, insert_hours-decides new (old ++ (r ∷ [])), apart-append_one new old r)
          (regroup (apart new old) (not (any (same_hours r) new)) (distinct new) _ _
            (append_assoc old (r ∷ []) new))
    | inr no_day ↦ rw (free, no_day) (barred (apart new old) (old ++ (r ∷ new)))
  ]
]

module _ (id : ℕ) where
  abbrev pub others : List HourRow → List HourRow
  others rows = keep (λ r. not (HourRow.location_id r == id)) rows

  no_clash :
      (w : IsoDay × TimeRange) (rows : List HourRow)
      → any (same_hours (hour_row id w)) (others rows) ≡ false
  no_clash w [] = refl
  no_clash w (r ∷ rows) = elim (Bool-cases (r.location_id == id)) [
    | inl mine ↦ rw mine (no_clash w rows)
    | inr other ↦ rw other (ground (arith, other, no_clash w rows))
  ]

  apart-others :
      (ws : List (IsoDay × TimeRange)) (rows : List HourRow)
      → apart (map (hour_row id) ws) (others rows) ≡ true
  apart-others [] rows = refl
  apart-others (w ∷ ws) rows = rw (no_clash w rows, apart-others ws rows) refl

  any-hour_rows :
      (w : IsoDay × TimeRange) (ws : List (IsoDay × TimeRange))
      → any (same_hours (hour_row id w)) (map (hour_row id) ws) ≡ any (same_row w) ws
  any-hour_rows w [] = refl
  any-hour_rows w (v ∷ ws) = rw ((==_iff id id).1 refl, any-hour_rows w ws) refl

  distinct-hour_rows :
      (ws : List (IsoDay × TimeRange)) → distinct (map (hour_row id) ws) ≡ are_storable ws
  distinct-hour_rows [] = refl
  distinct-hour_rows (w ∷ ws) = rw (any-hour_rows w ws, distinct-hour_rows ws) refl

  -- The opening hours of a listing are stored exactly where every day of a row is from 1 to 7 and no
  -- two rows have the same day and the same stored times (in whole microseconds, and those of
  -- `all_day` for a row that is open all day). They then stand after the rows of the other listings,
  -- which are as they were, and replace those of the listing; otherwise the write fails.
  pub write_hours-decides :
      (hours : OpeningHours) (rows : List HourRow)
      → to_option (write_hours id hours rows)
        ≡ (if is_storable hours then some (others rows ++ hour_rows id hours) else none)
  unfolding write_hours
  write_hours-decides unknown_hours rows = insert_hours-decides [] (others rows)
  write_hours-decides (weekly ws) rows =
      insert_hours-decides (map (hour_row id) ws) (others rows)
      ∙ ap (λ b. if b then some (others rows ++ map (hour_row id) ws) else none)
          (rw (apart-others ws rows, distinct-hour_rows ws) refl)
