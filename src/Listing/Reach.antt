-- ===== src/Listing/Reach.antt =====
-- What the tables of the listings can become, request by request.
use bikesnest.Prelude.{ℕ, ◌≡◌, String, Bool, Option, none, List, ok, Option-cases, inl, inr}
use bikesnest.Prelude.Int.{ℤ}
use bikesnest.Domain.Codes.ModerationState.{ModerationState}
use bikesnest.Domain.ParkingEdit.{TimeText, ParkingEdit}
use bikesnest.Listing.{Tables, ProposalVote, User, err_not_ok}
use bikesnest.Listing.Rows.{find}
use bikesnest.Listing.Application.{ProposalApplication}
use bikesnest.Listing.Publish.{
  has_location, has_proposal, approve_in_transaction, set_parking_state, reject_proposal,
}
use bikesnest.Listing.Publish.Sound.{IsSound}
use bikesnest.Listing.Publish.Effect.{IsPublished, approve_in_transaction-IsPublished}
use bikesnest.Listing.Publish.State.{set_parking_state-IsSound, reject_proposal-IsSound}
use bikesnest.Listing.Contribution.{
  NewProposal, ProposalVoteTotals, create_proposal, vote_on_proposal,
}
use bikesnest.Listing.Contribution.Sound.{create_proposal-IsSound, vote_on_proposal-IsSound}
use bikesnest.Listing.Entry.{NewParkingLocation, create, apply_edit}
use bikesnest.Listing.Entry.Sound.{create-IsSound, apply_edit-IsSound}

module _ (times : TimeText) (f64_of : ℤ → ℕ) (parse_timezone : String → Option String) where
  -- A transaction that commits. A new listing has an id that none has; the accounts change freely.
  pub data Step : Tables → Tables → Type 0 where
    listing_created :
        (now new_id creator : ℕ) (n : NewParkingLocation) {t after : Tables}
        → find (has_location new_id) t.locations ≡ none
        → create times now new_id n creator t ≡ ok after
        → Step t after
    listing_edited :
        (now id expected editor version : ℕ) (e : ParkingEdit) {t after : Tables}
        → apply_edit times parse_timezone now id expected e editor t ≡ ok (after, version)
        → Step t after
    proposed :
        (new_id id : ℕ) (n : NewProposal) {t after : Tables}
        → create_proposal times f64_of new_id n t ≡ ok (after, id)
        → Step t after
    voted :
        (now id voter : ℕ) (side : ProposalVote) (totals : ProposalVoteTotals) {t after : Tables}
        → vote_on_proposal times f64_of parse_timezone now id voter side t ≡ ok (after, totals)
        → Step t after
    approved :
        (now id moderator : ℕ) (a : ProposalApplication) {t after : Tables}
        → approve_in_transaction times now id moderator a t ≡ ok after
        → Step t after
    rejected :
        (now id moderator : ℕ) (reason : String) {t : Tables}
        → Step t (reject_proposal times now id moderator reason t).0
    restated :
        (now id moderator : ℕ) (from : ModerationState → Bool) (to : ModerationState)
        {t after : Tables}
        → set_parking_state times now id from to moderator t ≡ ok after
        → Step t after
    accounts : (users : List User) {t : Tables} → Step t (record t { users = users })

  pub data Reachable (start : Tables) : Tables → Type 0 where
    here : Reachable start start
    after_step : {t after : Tables} → Reachable start t → Step t after → Reachable start after

  approve_in_transaction-IsSound :
      (now id moderator : ℕ) (a : ProposalApplication) (t after : Tables)
      → IsSound t
      → approve_in_transaction times now id moderator a t ≡ ok after
      → IsSound after
  unfolding approve_in_transaction
  approve_in_transaction-IsSound now id moderator a t after sound e =
      elim (Option-cases (find (has_proposal id) t.proposals)) [
        | inl gone ↦ err_not_ok (rw gone at e)
        | inr (p, fp) ↦ elim (Option-cases (find (has_location p.location_id) t.locations)) [
          | inl gone ↦ err_not_ok (rw (fp, gone) at e)
          | inr (l, fl) ↦ IsPublished.sound (
              approve_in_transaction-IsPublished times now id moderator a t p l after sound fp fl e)
        ]
      ]

  Step-IsSound : {t after : Tables} → Step t after → IsSound t → IsSound after
  Step-IsSound (listing_created now new_id creator n fresh e) h =
      create-IsSound times now new_id n creator _ _ h fresh e
  Step-IsSound (listing_edited now id expected editor version x e) h =
      apply_edit-IsSound times parse_timezone now id expected x editor _ _ version h e
  Step-IsSound (proposed new_id id n e) h = create_proposal-IsSound times f64_of new_id n _ _ id h e
  Step-IsSound (voted now id voter side totals e) h =
      vote_on_proposal-IsSound times f64_of parse_timezone now id voter side _ _ totals h e
  Step-IsSound (approved now id moderator a e) h =
      approve_in_transaction-IsSound now id moderator a _ _ h e
  Step-IsSound (rejected now id moderator reason) h =
      reject_proposal-IsSound times now id moderator reason _ h
  Step-IsSound (restated now id moderator from to e) h =
      set_parking_state-IsSound times now id moderator from to _ _ h e
  Step-IsSound (accounts users) h = record {
    unique = h.unique;
    pending = h.pending;
    recorded = h.recorded;
  }

  -- Whatever listings are added or edited, whatever is proposed, voted on, approved, rejected, taken down
  -- or restored, and however the accounts change, from sound tables, every pending proposal is on an
  -- active listing and was written against a version that the listing has had, no revision is of a
  -- version that its listing has not come to, and no two listings share an id.
  pub Reachable-IsSound : (start t : Tables) → IsSound start → Reachable start t → IsSound t
  Reachable-IsSound start t h here = h
  Reachable-IsSound start t h (after_step r s) = Step-IsSound s (Reachable-IsSound start _ h r)
