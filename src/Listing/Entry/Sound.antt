-- ===== src/Listing/Entry/Sound.antt =====
-- A new listing and a direct edit keep the tables sound
-- (`create`, `apply_edit`, crates/infrastructure/src/community/contribution.rs).
use mathlib.Core.Option
use mathlib.Core.Path.{subst}
use bikesnest.Prelude.{
  ℕ, suc, ◌≡◌, refl, ap, sym, ◌∙◌, String, Bool, true, false, ◌&&◌, Option, none, some, List, ◌∷◌,
  Result, ok, ◌>>=◌, ◌>>◌, ◌+++◌, any, ◌==◌, Bool-cases, Option-cases, inl, inr, arith, ==_iff,
}
use bikesnest.Domain.Proposal.{is_latitude, is_longitude}
use bikesnest.Domain.ParkingEdit.{TimeText, ParkingEdit}
use bikesnest.Listing.{
  HourRow, answered, Location, Revision, Tables, is_active, require, ensure, required, ensured,
  ok_inj, err_not_ok,
}
use bikesnest.Listing.Rows.{
  find, find_passes, updated, update_where, some_not_none, some_inj, All-map,
}
use bikesnest.Listing.Publish.{has_location, is_revision, edited}
use bikesnest.Listing.Publish.Sound.{Recorded, IsSound, IsSound_by, row_of_id}
use bikesnest.Listing.Publish.Sound.Written.{
  HasUniqueIds-written, Backed-kept, All-Recorded-written,
}
use bikesnest.Listing.Snapshot.{write_hours, write_security}
use bikesnest.Listing.Contribution.{
  ContributionError, location_not_active, version_conflict, invalid_field,
}
use bikesnest.Listing.Entry.{
  stored_hours, NewParkingLocation, insert_change, new_location, first_revision, create, apply_edit,
  write_edit, land_edit, is_edited, edit_revision,
}

-- A listing with a new id hides none of the others.
find-behind :
    (l : Location) (ls : List Location) (k : ℕ) (m : Location)
    → find (has_location l.id) ls ≡ none
    → find (has_location k) ls ≡ some m
    → find (has_location k) (l ∷ ls) ≡ some m
unfolding find
find-behind l ls k m fresh f = elim (Bool-cases (l.id == k)) [
  | inl here ↦
      some_not_none
        (sym f ∙ ap (λ i. find (has_location i) ls) (sym ((==_iff l.id k).0 here)) ∙ fresh)
  | inr there ↦ rw there f
]

inserted :
    (r : Revision) (t after : Tables)
    → insert_change r t ≡ ok after
    → record t { revisions = r ∷ t.revisions } ≡ after
unfolding insert_change
inserted r t after e = elim (Bool-cases (any (is_revision r.location_id r.version) t.revisions)) [
  | inl taken ↦ err_not_ok (rw taken at e)
  | inr free ↦ ok_inj (rw free at e)
]

abbrev pub answer_with : {A : Type 0} → A → Tables → Result ContributionError (Tables × A)
answer_with k t = ok (t, k)

inserted_with :
    {A : Type 0} (r : Revision) (t after : Tables) (k k' : A)
    → (insert_change r t >>= answer_with k) ≡ ok (after, k')
    → record t { revisions = r ∷ t.revisions } ≡ after
unfolding insert_change
inserted_with r t after k k' e =
    elim (Bool-cases (any (is_revision r.location_id r.version) t.revisions)) [
      | inl taken ↦ err_not_ok (rw taken at e)
      | inr free ↦ ap (λ x. x.0) (ok_inj (rw free at e))
    ]

Recorded-self :
    (l : Location) (ls : List Location) (r : Revision)
    → r.location_id ≡ l.id
    → r.version ≡ l.version
    → Recorded (l ∷ ls) r
unfolding find
Recorded-self l ls r e v = record {
  location = l;
  found = rw (e, (==_iff l.id l.id).1 refl) refl;
  past = rw v (omega arith);
}

pub create-IsSound :
    (times : TimeText) (now new_id : ℕ) (n : NewParkingLocation) (creator : ℕ) (t after : Tables)
    → IsSound t
    → find (has_location new_id) t.locations ≡ none
    → create times now new_id n creator t ≡ ok after
    → IsSound after
unfolding create new_location
create-IsSound times now new_id n creator t after sound fresh e =
    required _ n.timezone _ after e λ zone given stored.
      let l = new_location now new_id n zone in
      answered (stored_hours (write_hours new_id n.hours t.opening_hours)) _ after stored
        λ hours kept rest.
          subst IsSound (inserted (first_revision times l n creator) _ after rest) (
            IsSound_by _ (l ∷ t.locations) (first_revision times l n creator ∷ t.revisions)
              t.proposals refl refl refl (fresh, sound.unique)
              (All-map t.proposals
                (λ p f waits.
                  let b = f waits in
                  record {
                    location = b.location;
                    found = find-behind l t.locations p.location_id b.location fresh b.found;
                    active = b.active;
                    base = b.base;
                  })
                sound.pending)
              (
                Recorded-self l t.locations (first_revision times l n creator) refl refl,
                All-map t.revisions
                    (λ r h. record {
                      location = h.location;
                      found = find-behind l t.locations r.location_id h.location fresh h.found;
                      past = h.past;
                    })
                    sound.recorded,
              ))

edited-id : (now : ℕ) (e : ParkingEdit) (l : Location) → (edited now e l).id ≡ l.id
unfolding edited
edited-id now e l = refl

edited-version :
    (now : ℕ) (e : ParkingEdit) (l : Location) → (edited now e l).version ≡ suc l.version
unfolding edited
edited-version now e l = refl

edited-state :
    (now : ℕ) (e : ParkingEdit) (l : Location)
    → (edited now e l).moderation_state ≡ l.moderation_state
unfolding edited
edited-state now e l = refl

is_edited-narrow :
    (times : TimeText) (parse_timezone : String → Option String) (id version : ℕ) (l : Location)
    → is_edited times parse_timezone id version l ≡ true
    → has_location id l ≡ true
is_edited-narrow times parse_timezone id version l h =
    first (has_location id l) (l.version == version) (is_active l.moderation_state) h
  where
    first : (x y z : Bool) → x && y && z ≡ true → x ≡ true
    first true y z e = refl
    first false y z e = e

module _ (times : TimeText) (parse_timezone : String → Option String) (now id expected : ℕ)
    (e : ParkingEdit) (editor : ℕ) (t : Tables) where
  abbrev target : Location → Bool
  target = is_edited times parse_timezone id expected

  -- The row that the UPDATE gives back is that of the listing, edited.
  updated-row :
      (row : Location)
      → updated target (edited now e) t.locations ≡ some row
      → (l : Location) × (find target t.locations ≡ some l) × (edited now e l ≡ row)
  unfolding updated
  updated-row row u = elim (Option-cases (find target t.locations)) [
    | inl gone ↦ some_not_none (sym u ∙ ap (Option.map (edited now e)) gone)
    | inr (l, f) ↦ (l, f, some_inj (sym (ap (Option.map (edited now e)) f) ∙ u))
  ]

  abbrev pub edited_tables : List HourRow → Tables
  edited_tables hours = record t {
    locations = update_where target (edited now e) t.locations;
    opening_hours = hours;
    security = write_security id e.security t.security;
  }

  abbrev pub edit_row : Location → String → Revision
  edit_row row zone = edit_revision times parse_timezone (record row { timezone = zone }) e editor

  edit_lands :
      (after : Tables) (row : Location) (version : ℕ) (zone : String) (hours : List HourRow)
      → IsSound t
      → updated target (edited now e) t.locations ≡ some row
      → (insert_change (edit_row row zone) (edited_tables hours) >>= answer_with row.version)
        ≡ ok (after, version)
      → IsSound after
  edit_lands after row version zone hours sound u goes =
      let (l, f, same) = updated-row row u in
      let set = edited now e in
      let narrow = is_edited-narrow times parse_timezone id expected in
      let hit : target l ≡ true = find_passes target t.locations l f in
      let here : l.id ≡ id = (==_iff l.id id).0 (narrow l hit) in
      let found : find (has_location id) t.locations ≡ some l =
        ap (λ k. find (has_location k) t.locations) (sym here)
        ∙ row_of_id t.locations target l sound.unique f in
      subst IsSound
        (inserted_with (edit_row row zone) (edited_tables hours) after row.version version goes)
        (IsSound_by _ (update_where target set t.locations) (edit_row row zone ∷ t.revisions)
          t.proposals refl refl refl
          (HasUniqueIds-written set (edited-id now e) (edited-version now e) target id narrow
            t.locations t.locations sound.unique)
          (All-map t.proposals
            (Backed-kept set (edited-id now e) (edited-version now e) target id narrow t.locations
              (edited-state now e))
            sound.pending)
          (All-Recorded-written set (edited-id now e) (edited-version now e) target id narrow
            t.locations l found hit (edit_row row zone)
            (ap Location.id (sym same) ∙ (edited-id now e l ∙ here))
            (ap Location.version (sym same) ∙ edited-version now e l) t.revisions sound.recorded))

  pub apply_edit-IsSound :
      (after : Tables) (version : ℕ)
      → IsSound t
      → apply_edit times parse_timezone now id expected e editor t ≡ ok (after, version)
      → IsSound after
  unfolding apply_edit write_edit land_edit
  apply_edit-IsSound after version sound goes =
      required _ (find (has_location id) t.locations) _ (after, version) goes
        λ guard g e1.
          ensured (is_active guard.moderation_state) location_not_active
            (ensure (guard.version == expected) version_conflict >> written) (after, version) e1
            λ active e2.
              ensured (guard.version == expected) version_conflict written (after, version) e2
                λ same e3.
                  required _ (updated target (edited now e) t.locations) landed (after, version) e3
                    λ row u e4. lands row u e4
    where
      written : Result ContributionError (Tables × ℕ)
      written = write_edit times parse_timezone now id expected e editor t

      landed : Location → Result ContributionError (Tables × ℕ)
      landed = land_edit times parse_timezone now id expected e editor t

      stored : Location → Result ContributionError (Tables × ℕ)
      stored row =
          require (invalid_field ("unknown timezone: " +++ row.timezone))
            (parse_timezone row.timezone)
          >>= λ zone. stored_hours (write_hours id e.hours t.opening_hours) >>= λ hours.
              insert_change (edit_row row zone) (edited_tables hours) >>= answer_with row.version

      lands :
          (row : Location)
          → updated target (edited now e) t.locations ≡ some row
          → landed row ≡ ok (after, version)
          → IsSound after
      lands row u e4 =
          ensured (is_latitude row.lat && is_longitude row.lon) _ (stored row) (after, version) e4
            λ on_globe e5.
              required _ (parse_timezone row.timezone) _ (after, version) e5
                λ zone z e6.
                  answered (stored_hours (write_hours id e.hours t.opening_hours)) _
                    (after, version) e6
                    λ hours kept e7. edit_lands after row version zone hours sound u e7
