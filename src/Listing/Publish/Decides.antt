-- ===== src/Listing/Publish/Decides.antt =====
-- When an approval goes through, and what it leaves (`approve_in_transaction`,
-- crates/infrastructure/src/moderation/actions.rs).
use bikesnest.Prelude.{
  ℕ, suc, ◌≡◌, refl, Bool, true, false, ◌&&◌, ◌||◌, not, Option, none, some, ◌∷◌, Result, ok, err,
  ◌>>◌, any, ◌==◌, if◌then◌else◌, ==_iff, Bool-cases, inl, inr,
}
use bikesnest.Domain.ParkingEdit.{TimeText}
use bikesnest.Moderation.Error.{ModerationError, internal, invalid_state, stale_proposal}
use bikesnest.Listing.{Location, Proposal, Revision, Tables, is_active, is_pending, is_user, ensure}
use bikesnest.Listing.Rows.{find, update_where, updated, find_narrow}
use bikesnest.Listing.Application.{
  ProposalApplication, apply_edit, apply_move, apply_existence, application_kind,
}
use bikesnest.Listing.Publish.{
  same_kind, has_location, has_proposal, is_revision, insert_revision, supersede, edited, changed,
  is_target, wants_active, summary_of, revision_of, approved_by, publish, approve_in_transaction,
}
use bikesnest.Listing.Publish.Details.{
  is_writable, detailed, detailed-rest, detailed-voters, with_details-decides,
}
use bikesnest.Listing.Publish.Sound.{IsSound, next_version-free, listing_of_pending, found_by_id}

pub changed-id : (now : ℕ) (a : ProposalApplication) (l : Location) → (changed now a l).id ≡ l.id
unfolding changed edited
changed-id now (apply_edit e) l = refl
changed-id now (apply_move lat lon zone) l = refl
changed-id now (apply_existence exists) l = refl

pub changed-version :
    (now : ℕ) (a : ProposalApplication) (l : Location) → (changed now a l).version ≡ suc l.version
unfolding changed edited
changed-version now (apply_edit e) l = refl
changed-version now (apply_move lat lon zone) l = refl
changed-version now (apply_existence exists) l = refl

pub is_target-narrow :
    (a : ProposalApplication) (id version : ℕ) (l : Location)
    → is_target a id version l ≡ true
    → has_location id l ≡ true
is_target-narrow a id version l h =
    first (has_location id l) (l.version == version) (wants_active a l) h
  where
    first : (x y z : Bool) → x && y && z ≡ true → x ≡ true
    first true y z e = refl
    first false y z e = e

wants-active :
    (a : ProposalApplication) (l : Location)
    → is_active l.moderation_state ≡ true
    → wants_active a l ≡ true
wants-active (apply_edit e) l h = h
wants-active (apply_move lat lon zone) l h = refl
wants-active (apply_existence exists) l h = refl

-- Whether an approval of a proposal of a listing is refused, and why.
abbrev pub refusal : Proposal → Location → ℕ → ProposalApplication → Option ModerationError
refusal p l moderator a =
    if not (is_pending p.status)
    then some invalid_state
    else if not (p.base_version == l.version)
    then some stale_proposal
    else if not (same_kind p.kind (application_kind a)) || is_user p.proposer_id moderator
    then some invalid_state
    else if not (is_writable a)
    then some internal
    else none

guards :
    (waits same kind own fits : Bool) (goes : Result ModerationError Tables) (done : Tables)
    → (waits ≡ true → same ≡ true → goes ≡ (if fits then ok done else err internal))
    → (ensure waits invalid_state
        >> (ensure same stale_proposal >> (ensure (kind && not own) invalid_state >> goes)))
      ≡ elim (if not waits
          then some invalid_state
          else if not same
          then some stale_proposal
          else if not kind || own
          then some invalid_state
          else if not fits
          then some internal
          else none) [ none ↦ ok done | some e ↦ err e ]
guards false same kind own fits goes done h = refl
guards true false kind own fits goes done h = refl
guards true true false own fits goes done h = refl
guards true true true true fits goes done h = refl
guards true true true false true goes done h = h refl refl
guards true true true false false goes done h = h refl refl

module _ (times : TimeText) (now id moderator : ℕ) (a : ProposalApplication) (t : Tables) where
  -- The tables after an approval.
  abbrev pub with_listing : Location → Tables
  with_listing l = detailed l.id a (record t {
    locations = update_where (is_target a l.id l.version) (changed now a) t.locations;
  })

  abbrev pub new_revision : Location → Revision
  new_revision l = revision_of times (with_listing l) (changed now a l) moderator (summary_of a)

  abbrev pub with_revision : Location → Tables
  with_revision l = record (with_listing l) {
    revisions = new_revision l ∷ (with_listing l).revisions;
  }

  abbrev pub published : Location → Tables
  published l = record (with_revision l) {
    proposals = supersede l.id (some id) (
        update_where (has_proposal id) (approved_by now moderator (with_revision l))
          (with_listing l).proposals);
  }

  pub with_listing-rest :
      (l : Location)
      → ((with_listing l).revisions ≡ t.revisions)
        × ((with_listing l).proposals ≡ t.proposals)
        × ((with_listing l).locations
            ≡ update_where (is_target a l.id l.version) (changed now a) t.locations)
  with_listing-rest l = detailed-rest l.id a _

  pub with_listing-voters :
      (l : Location) → ((with_listing l).votes ≡ t.votes) × ((with_listing l).users ≡ t.users)
  with_listing-voters l = detailed-voters l.id a _

  pub target-hit :
      (l : Location) → is_active l.moderation_state ≡ true → is_target a l.id l.version l ≡ true
  target-hit l active =
      rw ((==_iff l.id l.id).1 refl, (==_iff l.version l.version).1 refl, wants-active a l active)
        refl

  no_revision :
      (l : Location)
      → IsSound t
      → find (has_location l.id) t.locations ≡ some l
      → any
          (is_revision (Location.id (changed now a l)) (Location.version (changed now a l)))
          (with_listing l).revisions
        ≡ false
  no_revision l sound found =
      rw (changed-id now a l, changed-version now a l, (detailed-rest l.id a _).0)
        (next_version-free t.locations t.revisions l found sound.recorded)

  publish-goes :
      (l : Location)
      → IsSound t
      → find (has_location l.id) t.locations ≡ some l
      → is_active l.moderation_state ≡ true
      → publish times now id moderator l.version l a t
        ≡ (if is_writable a then ok (published l) else err internal)
  unfolding publish updated insert_revision
  publish-goes l sound found active =
      let stored = with_details-decides l.id a (record t {
        locations = update_where (is_target a l.id l.version) (changed now a) t.locations;
      }) in
      elim (Bool-cases (is_writable a)) [
        | inl fits ↦
            rw
              (
                stored,
                fits,
                find_narrow (has_location l.id) (is_target a l.id l.version) t.locations l found
                    (target-hit l active) (is_target-narrow a l.id l.version),
                no_revision l sound found,
              )
              refl
        | inr unfit ↦ rw (stored, unfit) refl
      ]

  -- An approval, where the tables are sound, goes through exactly where nothing refuses it: the proposal
  -- is pending, was written against the version that the listing has now, is of the kind of what is
  -- applied, and is not the moderator's own, and the opening hours of an edit can be stored: each of a
  -- day from 1 to 7, and no two of a day with the same bounds. Otherwise it is refused, with the error
  -- of the first of these that fails, which is internal for the hours.
  pub approve_in_transaction-decides :
      (p : Proposal) (l : Location)
      → IsSound t
      → find (has_proposal id) t.proposals ≡ some p
      → find (has_location p.location_id) t.locations ≡ some l
      → approve_in_transaction times now id moderator a t
        ≡ elim (refusal p l moderator a) [ none ↦ ok (published l) | some e ↦ err e ]
  unfolding approve_in_transaction
  approve_in_transaction-decides p l sound fp fl =
      rw (fp, fl)
        (guards (is_pending p.status) (p.base_version == l.version)
          (same_kind p.kind (application_kind a)) (is_user p.proposer_id moderator) (is_writable a)
          (publish times now id moderator p.base_version l a t) (published l) goes)
    where
      goes :
          is_pending p.status ≡ true
          → (p.base_version == l.version) ≡ true
          → publish times now id moderator p.base_version l a t
            ≡ (if is_writable a then ok (published l) else err internal)
      goes waits same = rw ((==_iff p.base_version l.version).0 same) (
          publish-goes l sound (found_by_id t.locations p.location_id l fl)
            (listing_of_pending t id p l sound fp fl waits))
