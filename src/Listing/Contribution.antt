-- ===== src/Listing/Contribution.antt =====
-- What a member of the community does to a listing: `create_proposal` and `vote_on_proposal`
-- (crates/infrastructure/src/community/contribution.rs). The database's own id of a new row, the
-- clock, chrono-tz's names and Rust's conversion of an integer to a float are parameters.
pub mod Voting
pub mod Ballot
pub mod Sound
use bikesnest.Prelude.{
  ℕ, String, Bool, true, false, ◌&&◌, ◌||◌, not, Option, none, some, List, [], ◌∷◌, ◌++◌, Result,
  ok, err, any, ◌==◌, if◌then◌else◌, ◌>>=◌, ◌>>◌,
}
use bikesnest.Prelude.Int.{ℤ, pos}
use bikesnest.Json.{Json}
use bikesnest.Domain.Codes.ProposalKind.{ProposalKind}
use bikesnest.Domain.Codes.ProposalStatus.{pending}
use bikesnest.Domain.Community.{should_publish}
use bikesnest.Domain.ParkingEdit.{TimeText}
use bikesnest.Domain.Proposal.{ProposedChange, unknown, change_from_json}
use bikesnest.Moderation.Error.{ModerationError, stale_proposal, invalid_state}
use bikesnest.Listing.{
  Location, Proposal, ProposalVote, approve, reject, Vote, User, Tables, require, ensure, is_active,
  is_pending, is_user, is_some, eligible_voter, is_eligible, tally,
}
use bikesnest.Listing.Rows.{find, update_where}
use bikesnest.Listing.Application.{ProposalApplication, no_override, merge}
use bikesnest.Listing.Publish.{has_location, has_proposal, approve_in_transaction}

pub data ContributionError : Type 0 where
  not_verified rate_limited version_conflict not_found location_not_active : ContributionError
  invalid_field : String → ContributionError
  unauthorized timezone_error conflict unavailable internal : ContributionError

pub record NewProposal : Type 0 where
  pub location_id : ℕ
  pub proposer_id : ℕ
  pub base_version : ℕ
  pub kind : ProposalKind
  pub proposed : Json

abbrev pub is_unknown : ProposedChange → Bool
is_unknown unknown = true
is_unknown _ = false

-- The eligible voters' row of an id.
abbrev pub is_voter : ℕ → User → Bool
is_voter id u = (User.id u == id) && eligible_voter u

unfoldable pub new_row : ℕ → NewProposal → Bool → Proposal
new_row id p public_author = record {
  id = id;
  location_id = p.location_id;
  proposer_id = some p.proposer_id;
  base_version = p.base_version;
  kind = p.kind;
  proposed = p.proposed;
  status = pending;
  public_author = public_author;
  escalated_at = none;
  resolved_by = none;
  resolved_at = none;
  decision_reason = none;
  decision_approvals = none;
  decision_rejections = none;
}

-- The vote of a voter on a proposal: one row for the pair, which a later vote updates.
abbrev pub is_vote : ℕ → ℕ → Vote → Bool
is_vote proposal voter v = (Vote.proposal_id v == proposal) && (v.voter_id == voter)

unfoldable pub cast : ℕ → ℕ → ProposalVote → List Vote → List Vote
unfolding update_where
cast proposal voter side votes =
    if any (is_vote proposal voter) votes
    then update_where (is_vote proposal voter) (λ v. record v { vote = side }) votes
    else votes ++ (record { proposal_id = proposal; voter_id = voter; vote = side } ∷ [])

pub record ProposalVoteTotals : Type 0 where
  pub approvals : ℕ
  pub rejections : ℕ
  pub published : Bool

abbrev pub totals : Tables → ℕ → Bool → ProposalVoteTotals
totals t id published = record {
  approvals = tally t id approve;
  rejections = tally t id reject;
  published = published;
}

-- How a failure to publish is told to the voter.
abbrev pub of_moderation : ModerationError → ContributionError
of_moderation stale_proposal = version_conflict
of_moderation invalid_state = conflict
of_moderation _ = internal

-- The proposal is left to a moderator.
abbrev pub is_to_escalate : ℕ → Proposal → Bool
is_to_escalate id p = (Proposal.id p == id) && not (is_some p.escalated_at)

unfoldable pub escalate : ℕ → ℕ → Tables → Tables
unfolding update_where
escalate now id t = record t {
  proposals =
      update_where (is_to_escalate id) (λ p. record p { escalated_at = some now }) t.proposals;
}

module _ (times : TimeText) (f64_of : ℤ → ℕ) where
  unfoldable pub create_proposal : ℕ → NewProposal → Tables → Result ContributionError (Tables × ℕ)
  unfolding find change_from_json eligible_voter new_row
  create_proposal new_id p t = do
    l ← require not_found (find (has_location p.location_id) t.locations)
    ensure (is_active l.moderation_state) location_not_active
    ensure (l.version == p.base_version) version_conflict
    ensure (not (is_unknown (change_from_json times f64_of p.kind p.proposed)))
        (invalid_field "invalid proposal")
    author ← require not_verified (find (is_voter p.proposer_id) t.users)
    ok (
      record t {
        proposals = t.proposals ++ (new_row new_id p author.public_contribution_name ∷ []);
      },
      new_id,
    )

  module _ (parse_timezone : String → Option String) (now : ℕ) where
    abbrev pub after_publishing :
        ℕ
        → Tables
        → Result ModerationError Tables
        → Result ContributionError (Tables × ProposalVoteTotals)
    after_publishing id counted (ok t) = ok (t, totals counted id true)
    after_publishing id counted (err e) = err (of_moderation e)

    unfoldable pub publish_merged :
        ℕ
        → ℕ
        → Result ModerationError ProposalApplication
        → Tables
        → Result ContributionError (Tables × ProposalVoteTotals)
    unfolding approve_in_transaction escalate tally
    publish_merged id voter (ok applied) t =
        after_publishing id t (approve_in_transaction times now id voter applied t)
    publish_merged id voter (err e) t = ok (escalate now id t, totals t id false)

    -- The tally after the vote, and what it brings about.
    unfoldable pub settle :
        ℕ → ℕ → Proposal → Tables → Result ContributionError (Tables × ProposalVoteTotals)
    unfolding publish_merged merge change_from_json should_publish tally
    settle id voter p t =
        if should_publish (pos (tally t id approve)) && not (is_some p.escalated_at)
        then publish_merged id voter
            (merge parse_timezone p.kind (change_from_json times f64_of p.kind p.proposed)
              no_override)
            t
        else ok (t, totals t id false)

    unfoldable pub vote_on_proposal :
        ℕ → ℕ → ProposalVote → Tables → Result ContributionError (Tables × ProposalVoteTotals)
    unfolding find is_eligible settle cast
    vote_on_proposal id voter side t = do
      named ← require not_found (find (has_proposal id) t.proposals)
      l ← require not_found (find (has_location named.location_id) t.locations)
      ensure (is_active l.moderation_state) location_not_active
      p ← require not_found (find (has_proposal id) t.proposals)
      ensure (p.base_version == l.version) version_conflict
      ensure (is_pending p.status) conflict
      ensure (not (is_user p.proposer_id voter)) unauthorized
      ensure (is_eligible t.users voter) not_verified
      settle id voter p (record t { votes = cast id voter side t.votes })
