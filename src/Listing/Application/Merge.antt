-- ===== src/Listing/Application/Merge.antt =====
-- What a merge gives (crates/application/src/moderation.rs).
use bikesnest.Prelude.{
  ℕ, ◌≡◌, refl, String, Bool, true, ◌&&◌, Option, none, some, Result, ok, arith,
}
use bikesnest.Domain.Codes.ProposalKind.{
  ProposalKind, edit_details, move_location, change_existence,
}
use bikesnest.Domain.Proposal.{
  ProposedChange, edits, moves, existence, is_finite, is_latitude, is_longitude, coords_in_range,
  filled,
}
use bikesnest.Moderation.Error.{ModerationError}
use bikesnest.Listing.{required, ensured, ok_inj}
use bikesnest.Listing.Application.{
  ProposalOverride, ProposalApplication, apply_edit, apply_move, apply_existence, application_kind,
  merge, merge_move, merge_existence, or, zone_of,
}

module _ (parse_timezone : String → Option String) where
  -- What an approval may write: coordinates on the globe, and a timezone that exists.
  abbrev pub IsApplicable : ProposalApplication → Type 0
  IsApplicable (apply_edit e) = Unit
  IsApplicable (apply_move lat lon zone) =
      (coords_in_range lat lon ≡ true) × ((name : String) × (parse_timezone name ≡ some zone))
  IsApplicable (apply_existence exists) = Unit

  range :
      (lat lon : ℕ)
      → is_finite lat && is_latitude lat ≡ true
      → is_finite lon && is_longitude lon ≡ true
      → coords_in_range lat lon ≡ true
  unfolding coords_in_range
  range lat lon a b = ground arith

  zone_named :
      (o : Option String) (zone : String)
      → zone_of parse_timezone o ≡ some zone
      → (name : String) × (parse_timezone name ≡ some zone)
  zone_named none zone e = cc
  zone_named (some name) zone e = (name, e)

  moved :
      (y x : ℕ) (zone : String) (a : ProposalApplication)
      → (let r : Result ModerationError ProposalApplication = ok (apply_move y x zone) in r ≡ ok a)
      → apply_move y x zone ≡ a
  moved y x zone a e = ok_inj e

  merge_move-kept :
      (lat lon : Option ℕ) (timezone : Option String) (a : ProposalApplication)
      → merge_move parse_timezone lat lon timezone ≡ ok a
      → (application_kind a ≡ move_location) × IsApplicable a
  unfolding merge_move coords_in_range application_kind
  merge_move-kept lat lon timezone a e = required _ lat _ a e λ y gy e1.
      required _ lon _ a e1 λ x gx e2. ensured _ _ _ a e2 λ ny e3. ensured _ _ _ a e3 λ nx e4.
        required _ (zone_of parse_timezone (filled timezone)) _ a e4 λ zone gz e5.
          rw (← moved y x zone a e5) (refl, (range y x ny nx, zone_named (filled timezone) zone gz))

  merge_existence-kept :
      (o : Option Bool) (a : ProposalApplication)
      → merge_existence parse_timezone o ≡ ok a
      → (application_kind a ≡ change_existence) × IsApplicable a
  unfolding application_kind
  merge_existence-kept none a e = cc
  merge_existence-kept (some exists) a e =
      let same : apply_existence exists ≡ a = ok_inj e in rw (← same) (refl, tt)

  -- A merge that gives a change gives one of the kind of the proposal's row, whatever the moderator
  -- typed and whatever the stored payload says, and a move that it gives is to coordinates on the globe
  -- and to a timezone that exists.
  pub merge-kept :
      (kind : ProposalKind) (change : ProposedChange) (over : ProposalOverride)
      (a : ProposalApplication)
      → merge parse_timezone kind change over ≡ ok a
      → (application_kind a ≡ kind) × IsApplicable a
  unfolding merge application_kind
  merge-kept edit_details (edits x) over a e =
      let same : apply_edit x ≡ a = ok_inj e in rw (← same) (refl, tt)
  merge-kept edit_details _ over a e = cc
  merge-kept move_location (moves lat lon tz) over a e =
      merge_move-kept (or over.lat (some lat)) (or over.lon (some lon)) (or over.timezone tz) a e
  merge-kept change_existence (existence b) over a e = merge_existence-kept _ a e
  merge-kept move_location _ over a e = merge_move-kept over.lat over.lon over.timezone a e
  merge-kept change_existence _ over a e = merge_existence-kept _ a e
