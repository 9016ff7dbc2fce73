-- ===== src/Listing/Contribution/Voting.antt =====
-- When a vote goes through, and when it publishes
-- (`vote_on_proposal`, crates/infrastructure/src/community/contribution.rs).

use bikesnest.Prelude.{
  ℕ, ◌≡◌, refl, String, Bool, true, false, ◌&&◌, not, Option, none, some, Result, ok, err, ◌>>◌,
  ◌==◌, if◌then◌else◌, Bool-cases, inl, inr, leb,
}
use bikesnest.Prelude.Int.{ℤ}
use bikesnest.Domain.Codes.ProposalKind.{ProposalKind}
use bikesnest.Domain.Community.{should_publish}
use bikesnest.Domain.ParkingEdit.{TimeText}
use bikesnest.Domain.Proposal.{change_from_json}
use bikesnest.Moderation.Error.{ModerationError}
use bikesnest.Listing.{
  Location, Proposal, ProposalVote, approve, Tables, ensure, is_active, is_pending, is_user,
  is_some, is_eligible, tally,
}
use bikesnest.Listing.Rows.{find}
use bikesnest.Listing.Application.{ProposalApplication, no_override, merge, application_kind}
use bikesnest.Listing.Application.Merge.{merge-kept}
use bikesnest.Listing.Publish.{has_location, has_proposal, same_kind}
use bikesnest.Listing.Publish.Details.{is_writable}
use bikesnest.Listing.Publish.Sound.{IsSound}
use bikesnest.Listing.Publish.Decides.{refusal, published, approve_in_transaction-decides}
use bikesnest.Listing.Contribution.{
  ContributionError, not_verified, version_conflict, location_not_active, unauthorized, conflict,
  internal, ProposalVoteTotals, totals, cast, escalate, publish_merged, settle, vote_on_proposal,
}

-- Whether a vote on a proposal of a listing is refused, and why.
abbrev pub vote_refusal : Tables → Proposal → Location → ℕ → Option ContributionError
vote_refusal t p l voter =
    if not (is_active l.moderation_state)
    then some location_not_active
    else if not (p.base_version == l.version)
    then some version_conflict
    else if not (is_pending p.status)
    then some conflict
    else if is_user p.proposer_id voter
    then some unauthorized
    else if not (is_eligible t.users voter)
    then some not_verified
    else none

guards :
    {A : Type 0} (active same waits own eligible : Bool) (goes : Result ContributionError A)
    (done : Result ContributionError A)
    → (active ≡ true → same ≡ true → waits ≡ true → own ≡ false → goes ≡ done)
    → (ensure active location_not_active
        >> (ensure same version_conflict
            >> (ensure waits conflict
                >> (ensure (not own) unauthorized >> (ensure eligible not_verified >> goes)))))
      ≡ elim (if not active
          then some location_not_active
          else if not same
          then some version_conflict
          else if not waits
          then some conflict
          else if own
          then some unauthorized
          else if not eligible
          then some not_verified
          else none) [ none ↦ done | some e ↦ err e ]
guards false same waits own eligible goes done h = refl
guards true false waits own eligible goes done h = refl
guards true true false own eligible goes done h = refl
guards true true true true eligible goes done h = refl
guards true true true false false goes done h = refl
guards true true true false true goes done h = h refl refl refl refl

same_kind_refl : (k : ProposalKind) → same_kind k k ≡ true
same_kind_refl ProposalKind.edit_details = refl
same_kind_refl ProposalKind.move_location = refl
same_kind_refl ProposalKind.change_existence = refl

no_refusal :
    (voter : ℕ) (p : Proposal) (l : Location) (a : ProposalApplication)
    → application_kind a ≡ p.kind
    → (p.base_version == l.version) ≡ true
    → is_pending p.status ≡ true
    → is_user p.proposer_id voter ≡ false
    → refusal p l voter a ≡ (if is_writable a then none else some ModerationError.internal)
no_refusal voter p l a e same waits own = elim (Bool-cases (is_writable a)) [
  | inl fits ↦ rw (waits, same, e, same_kind_refl p.kind, own, fits) refl
  | inr unfit ↦ rw (waits, same, e, same_kind_refl p.kind, own, unfit) refl
]

module _ (times : TimeText) (f64_of : ℤ → ℕ) (parse_timezone : String → Option String)
    (now id voter : ℕ) where
  -- What the stored payload of a proposal merges into by itself.
  abbrev pub stored_change : Proposal → Result ModerationError ProposalApplication
  stored_change p =
      merge parse_timezone p.kind (change_from_json times f64_of p.kind p.proposed) no_override

  abbrev pub has_enough : Proposal → Tables → Bool
  has_enough p counted = leb 6 (tally counted id approve) && not (is_some p.escalated_at)

  -- The tables after a vote, with the vote counted: the change is published, or it is left to a
  -- moderator, or nothing else happens. A change whose hours cannot be stored fails the vote.
  abbrev pub merged :
      Location
      → Tables
      → Result ModerationError ProposalApplication
      → Result ContributionError (Tables × ProposalVoteTotals)
  merged l counted (ok a) =
      if is_writable a
      then ok (published times now id voter a counted l, totals counted id true)
      else err internal
  merged l counted (err e) = ok (escalate now id counted, totals counted id false)

  abbrev pub outcome :
      Proposal → Location → Tables → Result ContributionError (Tables × ProposalVoteTotals)
  outcome p l counted =
      if has_enough p counted
      then merged l counted (stored_change p)
      else ok (counted, totals counted id false)

  abbrev pub counted : ProposalVote → Tables → Tables
  counted side t = record t { votes = cast id voter side t.votes }

  pub counted-IsSound : (side : ProposalVote) (t : Tables) → IsSound t → IsSound (counted side t)
  counted-IsSound side t h = record {
    unique = h.unique;
    pending = h.pending;
    recorded = h.recorded;
  }

  publish_merged-goes :
      (p : Proposal) (l : Location) (t : Tables) (r : Result ModerationError ProposalApplication)
      → stored_change p ≡ r
      → IsSound t
      → find (has_proposal id) t.proposals ≡ some p
      → find (has_location p.location_id) t.locations ≡ some l
      → (p.base_version == l.version) ≡ true
      → is_pending p.status ≡ true
      → is_user p.proposer_id voter ≡ false
      → publish_merged times f64_of parse_timezone now id voter r t ≡ merged l t r
  unfolding publish_merged
  publish_merged-goes p l t (err x) e sound fp fl same waits own = refl
  publish_merged-goes p l t (ok a) e sound fp fl same waits own =
      let decides = approve_in_transaction-decides times now id voter a t p l sound fp fl in
      let free =
        no_refusal voter p l a ((merge-kept parse_timezone p.kind _ no_override a e).0) same waits
          own in
      elim (Bool-cases (is_writable a)) [
        | inl fits ↦ rw (decides, free, fits) refl
        | inr unfit ↦ rw (decides, free, unfit) refl
      ]

  settle-goes :
      (p : Proposal) (l : Location) (t : Tables)
      → IsSound t
      → find (has_proposal id) t.proposals ≡ some p
      → find (has_location p.location_id) t.locations ≡ some l
      → (p.base_version == l.version) ≡ true
      → is_pending p.status ≡ true
      → is_user p.proposer_id voter ≡ false
      → settle times f64_of parse_timezone now id voter p t ≡ outcome p l t
  unfolding settle should_publish
  settle-goes p l t sound fp fl same waits own = elim (Bool-cases (has_enough p t)) [
    | inl enough ↦
        rw enough (publish_merged-goes p l t (stored_change p) refl sound fp fl same waits own)
    | inr few ↦ rw few refl
  ]

  pub vote_on_proposal-decides :
      (side : ProposalVote) (t : Tables) (p : Proposal) (l : Location)
      → IsSound t
      → find (has_proposal id) t.proposals ≡ some p
      → find (has_location p.location_id) t.locations ≡ some l
      → vote_on_proposal times f64_of parse_timezone now id voter side t
        ≡ elim (vote_refusal t p l voter) [ none ↦ outcome p l (counted side t) | some e ↦ err e ]
  unfolding vote_on_proposal
  vote_on_proposal-decides side t p l sound fp fl =
      rw (fp, fl)
        (guards (is_active l.moderation_state) (p.base_version == l.version) (is_pending p.status)
          (is_user p.proposer_id voter) (is_eligible t.users voter)
          (settle times f64_of parse_timezone now id voter p (counted side t))
          (outcome p l (counted side t))
          (λ active same waits own.
            settle-goes p l (counted side t) (counted-IsSound side t sound) fp fl same waits own))
