-- ===== src/Listing/Contribution/Sound.antt =====
-- A proposal and a vote keep the tables sound
-- (`create_proposal`, `vote_on_proposal`, crates/infrastructure/src/community/contribution.rs).
use mathlib.Core.Path.{subst}
use bikesnest.Prelude.{
  ℕ, ◌≡◌, refl, ap, sym, ◌∙◌, String, true, not, Option, none, some, List, [], ◌∷◌, ◌++◌, Result,
  ok, err, ◌>>=◌, ◌>>◌, ◌==◌, All, Bool-cases, Option-cases, inl, inr, arith,
}
use bikesnest.Prelude.Int.{ℤ}
use bikesnest.Domain.ParkingEdit.{TimeText}
use bikesnest.Domain.Proposal.{ProposedChange, change_from_json}
use bikesnest.Moderation.Error.{ModerationError}
use bikesnest.Listing.{
  Location, Proposal, ProposalVote, Tables, User, require, ensure, required, ensured, ok_inj,
  err_not_ok, is_active,
}
use bikesnest.Listing.Rows.{find, All-update_where, some_not_none}
use bikesnest.Listing.Application.{ProposalApplication}
use bikesnest.Listing.Publish.{has_location, has_proposal}
use bikesnest.Listing.Publish.Sound.{IsBacked, IsSound, found_by_id}
use bikesnest.Listing.Publish.Details.{is_writable}
use bikesnest.Listing.Publish.Decides.{target-hit}
use bikesnest.Listing.Publish.Effect.{published-IsSound}
use bikesnest.Listing.Contribution.{
  ContributionError, NewProposal, location_not_active, version_conflict, invalid_field,
  not_verified, is_unknown, is_voter, new_row, create_proposal, ProposalVoteTotals, escalate,
  vote_on_proposal,
}
use bikesnest.Listing.Contribution.Voting.{
  vote_refusal, vote_on_proposal-decides, outcome, merged, counted, counted-IsSound, stored_change,
  has_enough,
}

All-append :
    {A : Type 0} (P : A → Type 0) (xs : List A) (y : A) → All P xs → P y → All P (xs ++ (y ∷ []))
All-append P [] y h p = (p, tt)
All-append P (x ∷ xs) y h p = (h.0, All-append P xs y h.1 p)

pub create_proposal-IsSound :
    (times : TimeText) (f64_of : ℤ → ℕ) (new_id : ℕ) (n : NewProposal) (t after : Tables) (id : ℕ)
    → IsSound t
    → create_proposal times f64_of new_id n t ≡ ok (after, id)
    → IsSound after
unfolding create_proposal new_row
create_proposal-IsSound times f64_of new_id n t after id sound e =
    required _ (find (has_location n.location_id) t.locations) guarded (after, id) e
      λ l found e1.
        ensured (is_active l.moderation_state) location_not_active (current l) (after, id) e1
          λ active e2.
            ensured (l.version == n.base_version) version_conflict readable (after, id) e2
              λ same e3.
                ensured (not (is_unknown change)) (invalid_field "invalid proposal") author
                  (after, id) e3
                  λ known e4.
                    required not_verified (find (is_voter n.proposer_id) t.users) inserted
                      (after, id) e4
                      λ u eligible e5.
                        subst IsSound (ap (λ x. x.0) (ok_inj e5)) (with_row l u found active same)
  where
    change : ProposedChange
    change = change_from_json times f64_of n.kind n.proposed

    inserted : User → Result ContributionError (Tables × ℕ)
    inserted u = ok (
      record t { proposals = t.proposals ++ (new_row new_id n u.public_contribution_name ∷ []) },
      new_id,
    )

    author : Result ContributionError (Tables × ℕ)
    author = require not_verified (find (is_voter n.proposer_id) t.users) >>= inserted

    readable : Result ContributionError (Tables × ℕ)
    readable = ensure (not (is_unknown change)) (invalid_field "invalid proposal") >> author

    current : Location → Result ContributionError (Tables × ℕ)
    current l = ensure (l.version == n.base_version) version_conflict >> readable

    guarded : Location → Result ContributionError (Tables × ℕ)
    guarded l = ensure (is_active l.moderation_state) location_not_active >> current l

    with_row :
        (l : Location) (u : User)
        → find (has_location n.location_id) t.locations ≡ some l
        → is_active l.moderation_state ≡ true
        → (l.version == n.base_version) ≡ true
        → IsSound (record t {
          proposals = t.proposals ++ (new_row new_id n u.public_contribution_name ∷ []);
        })
    with_row l u found active same = record {
      unique = sound.unique;
      pending = All-append (IsBacked t.locations) t.proposals _ sound.pending λ waits. record {
        location = l;
        found = found;
        active = active;
        base = ground (arith, same);
      };
      recorded = sound.recorded;
    }

escalate-IsSound : (now id : ℕ) (t : Tables) → IsSound t → IsSound (escalate now id t)
unfolding escalate
escalate-IsSound now id t h = record {
  unique = h.unique;
  pending =
      All-update_where _ _ t.proposals
        (λ p k hit waits.
          let b = k waits in
          record { location = b.location; found = b.found; active = b.active; base = b.base })
        (λ p k out. k) h.pending;
  recorded = h.recorded;
}

answered :
    {A : Type 0} (r : Option ContributionError) (done : Result ContributionError A) (after : A)
    → (let answer : Result ContributionError A = elim r [ none ↦ done | some e ↦ err e ] in
        answer ≡ ok after)
    → (r ≡ none) × (done ≡ ok after)
answered none done after e = (refl, e)
answered (some x) done after e = cc

active_of :
    (t : Tables) (p : Proposal) (l : Location) (voter : ℕ)
    → vote_refusal t p l voter ≡ none
    → is_active l.moderation_state ≡ true
active_of t p l voter e = elim (Bool-cases (is_active l.moderation_state)) [
  | inl a ↦ a
  | inr o ↦ some_not_none (rw o at e)
]

module _ (times : TimeText) (f64_of : ℤ → ℕ) (parse_timezone : String → Option String)
    (now id voter : ℕ) where
  merged-IsSound :
      (l : Location) (t : Tables) (r : Result ModerationError ProposalApplication)
      (after : Tables × ProposalVoteTotals)
      → IsSound t
      → find (has_location l.id) t.locations ≡ some l
      → is_active l.moderation_state ≡ true
      → merged times f64_of parse_timezone now id voter l t r ≡ ok after
      → IsSound after.0
  merged-IsSound l t (ok a) after sound found active e = elim (Bool-cases (is_writable a)) [
    | inl fits ↦
        subst (λ x. IsSound x.0) (ok_inj (rw fits at e))
          (published-IsSound times now id voter a t l sound found
            (target-hit times now id voter a t l active))
    | inr unfit ↦ err_not_ok (rw unfit at e)
  ]
  merged-IsSound l t (err x) after sound found active e =
      subst (λ x. IsSound x.0) (ok_inj e) (escalate-IsSound now id t sound)

  outcome-IsSound :
      (p : Proposal) (l : Location) (t : Tables) (after : Tables × ProposalVoteTotals)
      → IsSound t
      → find (has_location l.id) t.locations ≡ some l
      → is_active l.moderation_state ≡ true
      → outcome times f64_of parse_timezone now id voter p l t ≡ ok after
      → IsSound after.0
  outcome-IsSound p l t after sound found active e =
      elim (Bool-cases (has_enough times f64_of parse_timezone now id voter p t)) [
        | inl enough ↦
            merged-IsSound l t (stored_change times f64_of parse_timezone now id voter p) after
              sound found active (rw enough at e)
        | inr few ↦ subst (λ x. IsSound x.0) (ok_inj (rw few at e)) sound
      ]

  pub vote_on_proposal-IsSound :
      (side : ProposalVote) (t after : Tables) (totals : ProposalVoteTotals)
      → IsSound t
      → vote_on_proposal times f64_of parse_timezone now id voter side t ≡ ok (after, totals)
      → IsSound after
  unfolding vote_on_proposal
  vote_on_proposal-IsSound side t after totals sound e =
      elim (Option-cases (find (has_proposal id) t.proposals)) [
        | inl gone ↦ err_not_ok (rw gone at e)
        | inr (p, fp) ↦ elim (Option-cases (find (has_location p.location_id) t.locations)) [
          | inl gone ↦ err_not_ok (rw (fp, gone) at e)
          | inr (l, fl) ↦
              let (free, same) =
                answered (vote_refusal t p l voter)
                  (outcome times f64_of parse_timezone now id voter p l (tallied t)) (after, totals)
                  (sym (
                      vote_on_proposal-decides times f64_of parse_timezone now id voter side t p l
                        sound fp fl)
                    ∙ e) in
              outcome-IsSound p l (tallied t) (after, totals)
                (counted-IsSound times f64_of parse_timezone now id voter side t sound)
                (found_by_id t.locations p.location_id l fl) (active_of t p l voter free) same
        ]
      ]
    where
      tallied : Tables → Tables
      tallied u = counted times f64_of parse_timezone now id voter side u
