-- ===== src/Listing/Tests.antt =====
-- Runs of the publication and of the votes on a small board.
use bikesnest.Prelude.{
  ℕ, ◌≡◌, refl, true, false, none, some, [], ◌∷◌, ok, err, arith, trim, ◌++◌, ◌==◌, ◌&&◌, ◌=s=◌,
  any, if◌then◌else◌,
}
use bikesnest.Json.{string, object, field, end}
use bikesnest.Domain.Codes.AccountState
use bikesnest.Domain.Codes.ModerationState
use bikesnest.Domain.Codes.ProposalKind.{edit_details, change_existence, move_location}
use bikesnest.Domain.Codes.ProposalStatus
use bikesnest.Domain.Codes.ChangeKind
use bikesnest.Domain.ParkingEdit.Read.{to_option}
use bikesnest.Domain.ParkingEdit.Tests.{tallies, edit}
use bikesnest.Domain.Hours.{all_day, weekly}
use bikesnest.Domain.Parking.{security_feature_codes, state_smallint, state_in}
use bikesnest.Listing.Snapshot.{write_hours, hour_rows, write_security}
use bikesnest.Listing.Snapshot.Hours.{is_storable, others, write_hours-decides}
use bikesnest.Listing.Snapshot.Codes.{state_at, state_at-write_security}
use bikesnest.Domain.Proposal.{moves, filled}
use bikesnest.Moderation.Error.{db_conflict, internal, invalid_state, stale_proposal}
use bikesnest.Listing.{Location, Revision, Proposal, Vote, User, Tables, approve, reject, is_active}
use bikesnest.Listing.Rows.{find}
use bikesnest.Listing.Application.{
  apply_edit, apply_existence, apply_move, merge, no_override, application_kind,
}
use bikesnest.Listing.Application.Merge.{merge-kept, IsApplicable}
use bikesnest.Listing.Publish.{approve_in_transaction, set_parking_state, reject_proposal}
use bikesnest.Listing.Publish.Details.{detailed}
use bikesnest.Listing.Publish.Sound.{IsSound}
use bikesnest.Listing.Publish.Decides.{approve_in_transaction-decides, published}
use bikesnest.Listing.Publish.Effect.{
  IsPublished, approve_in_transaction-IsPublished, approve_in_transaction-once,
}
use bikesnest.Listing.Publish.State.{IsRestated, restated, set_parking_state-IsRestated}
use bikesnest.Listing.Contribution.{vote_on_proposal}
use bikesnest.Listing.Contribution.{cast}
use bikesnest.Listing.Contribution.Ballot.{ballot_of, say, cast-say}
use bikesnest.Listing.Reach.{rejected, here, after_step, Reachable-IsSound}

abbrev pub rack : Location
rack = record {
  id = 1;
  name = "Rack";
  address = "Street 1";
  description = none;
  parking_type = "rack";
  cost_kind = "free";
  price_cents = none;
  price_currency = none;
  price_unit = none;
  lat = 0;
  lon = 0;
  timezone = "UTC";
  hours_unknown = true;
  moderation_state = ModerationState.active;
  version = 3;
  rating_avg = none;
  rating_count = 0;
  updated_at = 0;
  last_meaningful_update_at = 0;
}

abbrev added : Revision
added = record {
  location_id = 1;
  version = 3;
  editor_id = some 9;
  change_kind = ChangeKind.edit;
  summary = "edited";
  snapshot = object end;
}

abbrev pub gone : Proposal
gone = record {
  id = 10;
  location_id = 1;
  proposer_id = some 9;
  base_version = 3;
  kind = change_existence;
  proposed = object (field "existence" (string "removed") end);
  status = ProposalStatus.pending;
  public_author = false;
  escalated_at = none;
  resolved_by = none;
  resolved_at = none;
  decision_reason = none;
  decision_approvals = none;
  decision_rejections = none;
}

abbrev older : Proposal
older = record gone { id = 11; base_version = 2 }

abbrev member : ℕ → User
member n = record {
  id = n;
  account_state = AccountState.active;
  email_verified_at = some 0;
  public_contribution_name = false;
}

abbrev approval : ℕ → Vote
approval n = record { proposal_id = 10; voter_id = n; vote = approve }

abbrev pub board : Tables
board = record {
  locations = rack ∷ [];
  opening_hours = [];
  security = [];
  revisions = added ∷ [];
  proposals = gone ∷ older ∷ [];
  votes = approval 1 ∷ approval 2 ∷ approval 3 ∷ approval 4 ∷ approval 5 ∷ [];
  users =
      member 1
      ∷ member 2
      ∷ member 3
      ∷ member 4
      ∷ member 5
      ∷ member 6
      ∷ record (member 7) { account_state = AccountState.suspended }
      ∷ [];
}

abbrev pub board-IsSound : IsSound board
unfolding find
board-IsSound = record {
  unique = (refl, tt);
  pending = (
    λ waits. record { location = rack; found = refl; active = refl; base = omega arith },
    ((λ waits. record { location = rack; found = refl; active = refl; base = omega arith }), tt),
  );
  recorded = (record { location = rack; found = refl; past = omega arith }, tt);
}

-- A stale proposal is refused, and so is one's own.
stale : approve_in_transaction tallies 100 11 2 (apply_existence false) board ≡ err stale_proposal
unfolding approve_in_transaction
stale = refl

own : approve_in_transaction tallies 100 10 9 (apply_existence false) board ≡ err invalid_state
unfolding approve_in_transaction
own = refl

-- The sixth approval publishes.
sixth :
    let answer = vote_on_proposal tallies (λ z. 0) some 100 10 6 approve board in
    elim answer [ ok (t, totals) ↦ totals.published | err e ↦ false ] ≡ true
unfolding vote_on_proposal
sixth = refl

merge-kept_example :
    let a = apply_move 0 0 "UTC" in (application_kind a ≡ move_location) × IsApplicable some a
unfolding merge filled trim
merge-kept_example =
    merge-kept some move_location (moves 0 0 (some "UTC")) no_override (apply_move 0 0 "UTC") refl

approve_in_transaction-decides_example :
    approve_in_transaction tallies 100 10 2 (apply_existence false) board
    ≡ ok (published tallies 100 10 2 (apply_existence false) board rack)
unfolding find application_kind
approve_in_transaction-decides_example =
    approve_in_transaction-decides tallies 100 10 2 (apply_existence false) board gone rack
      board-IsSound refl refl

abbrev board_after : Tables
board_after = published tallies 100 10 2 (apply_existence false) board rack

approval_goes :
    approve_in_transaction tallies 100 10 2 (apply_existence false) board ≡ ok board_after
unfolding approve_in_transaction detailed
approval_goes = refl

approve_in_transaction-IsPublished_example :
    IsPublished tallies 100 10 2 (apply_existence false) board gone rack board_after
unfolding find
approve_in_transaction-IsPublished_example =
    approve_in_transaction-IsPublished tallies 100 10 2 (apply_existence false) board gone rack
      board_after board-IsSound refl refl approval_goes

approve_in_transaction-once_example :
    approve_in_transaction tallies 200 10 3 (apply_existence true) board_after ≡ err invalid_state
unfolding find
approve_in_transaction-once_example =
    approve_in_transaction-once tallies 100 10 2 (apply_existence false) board gone rack board_after
      board-IsSound refl refl approval_goes 200 3 (apply_existence true)

abbrev board_down : Tables
board_down = restated tallies 100 1 2 is_active ModerationState.invalidated board rack

goes_down :
    set_parking_state tallies 100 1 is_active ModerationState.invalidated 2 board ≡ ok board_down
unfolding set_parking_state
goes_down = refl

set_parking_state-IsRestated_example :
    IsRestated tallies 100 1 2 is_active ModerationState.invalidated board rack board_down
unfolding find
set_parking_state-IsRestated_example =
    set_parking_state-IsRestated tallies 100 1 2 is_active ModerationState.invalidated board rack
      board_down board-IsSound refl goes_down

Reachable-IsSound_example : IsSound (reject_proposal tallies 100 10 2 "no" board).0
Reachable-IsSound_example =
    Reachable-IsSound tallies (λ z. 0) some board (reject_proposal tallies 100 10 2 "no" board).0
      board-IsSound (after_step here (rejected 100 10 2 "no"))

cast-say_example :
    ballot_of (cast 10 2 reject (approval 1 ∷ approval 2 ∷ [])) 10 2
    ≡ say 10 2 reject (ballot_of (approval 1 ∷ approval 2 ∷ [])) 10 2
cast-say_example = cast-say 10 2 reject (approval 1 ∷ approval 2 ∷ []) 10 2

-- Two rows that are open all day on Monday are one key of the table.
twice :
    write_hours 1 (weekly ((1, all_day) ∷ (1, all_day) ∷ [])) []
    ≡ err (db_conflict (some "opening_hours_pkey"))
unfolding write_hours
twice = refl

-- An edit that has such rows is not published.
unstorable :
    let rows = weekly ((1, all_day) ∷ (1, all_day) ∷ []) in
    let prop = record gone { kind = edit_details } in
    approve_in_transaction tallies 100 10 2
      (apply_edit (record edit { hours = rows }))
      (record board { proposals = prop ∷ [] })
    ≡ err internal
unfolding approve_in_transaction
unstorable = refl

write_hours-decides_example :
    to_option (write_hours 1 (weekly ((1, all_day) ∷ (2, all_day) ∷ [])) []) ≡ (
      if is_storable (weekly ((1, all_day) ∷ (2, all_day) ∷ []))
      then some (others 1 [] ++ hour_rows 1 (weekly ((1, all_day) ∷ (2, all_day) ∷ [])))
      else none)
write_hours-decides_example = write_hours-decides 1 (weekly ((1, all_day) ∷ (2, all_day) ∷ [])) []

state_at-write_security_example : state_at 1 "cctv" (write_security 1 edit.security []) ≡ (
    if (1 == 1) && any (λ code. "cctv" =s= code) security_feature_codes
    then some (state_smallint (state_in edit.security "cctv"))
    else state_at 1 "cctv" [])
state_at-write_security_example = state_at-write_security 1 1 "cctv" edit.security []
