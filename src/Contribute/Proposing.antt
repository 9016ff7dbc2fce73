-- ===== src/Contribute/Proposing.antt =====
-- What proposing leaves of the listings: ContributionService never publishes
-- (crates/application/src/community.rs).
use bikesnest.Prelude.{
  ℕ, ◌≡◌, refl, ap, sym, ◌∙◌, String, Bool, true, false, Option, none, some, [], ◌∷◌, ◌++◌, Result,
  ok, err, ◌==◌, not, ==_iff, ◌>>=◌, ◌>>◌,
}
use bikesnest.Prelude.Int.{ℤ}
use mathlib.Core.Path.{subst}
use bikesnest.Json.{Json}
use bikesnest.Domain.Codes.ProposalKind.{ProposalKind}
use bikesnest.Domain.Codes.ProposalStatus
use bikesnest.Domain.ParkingEdit.{TimeText, ParkingEdit}
use bikesnest.Domain.Proposal.{ProposedChange, change_from_json}
use bikesnest.Listing.{
  Location, Proposal, User, Tables, require, ensure, required, ensured, is_active, ok_inj,
}
use bikesnest.Listing.Rows.{find}
use bikesnest.Moderation.Service.{AuditEvent}
use bikesnest.Listing.Publish.{has_location}
use bikesnest.Listing.Contribution.{
  ContributionError, not_verified, version_conflict, location_not_active, invalid_field,
  NewProposal, create_proposal, new_row, is_unknown, is_voter,
}
use bikesnest.Contribute.{
  Member, Failures, Community, Request, continue, allowed, require_active, commit, store, logged,
  propose, apply_parking_edit, propose_location_change,
}

-- The tables are as they were, or hold one more proposal: a pending one, written against the version
-- that its listing has, which is active.
pub data Filed (t : Tables) : Tables → Type 0 where
  nothing : Filed t t
  filed :
      (l : Location) (p : Proposal)
      → find (has_location p.location_id) t.locations ≡ some l
      → is_active l.moderation_state ≡ true
      → l.version ≡ p.base_version
      → p.status ≡ ProposalStatus.pending
      → Filed t (record t { proposals = t.proposals ++ (p ∷ []) })

create_proposal-Filed :
    (times : TimeText) (f64_of : ℤ → ℕ) (new_id : ℕ) (n : NewProposal) (t after : Tables) (id : ℕ)
    → create_proposal times f64_of new_id n t ≡ ok (after, id)
    → Filed t after
unfolding create_proposal new_row
create_proposal-Filed times f64_of new_id n t after id e =
    required _ (find (has_location n.location_id) t.locations) guarded (after, id) e
      λ l found e1.
        ensured (is_active l.moderation_state) location_not_active (current l) (after, id) e1
          λ active e2.
            ensured (l.version == n.base_version) version_conflict readable (after, id) e2
              λ same e3.
                ensured (not (is_unknown change)) (invalid_field "invalid proposal") author
                  (after, id) e3
                  λ known e4.
                    required not_verified (find (is_voter n.proposer_id) t.users) inserted
                      (after, id) e4
                      λ u eligible e5. subst (Filed t) (ap (λ x. x.0) (ok_inj e5)) (
                        filed l (new_row new_id n u.public_contribution_name) found active
                          ((==_iff l.version n.base_version).0 same) refl)
  where
    change : ProposedChange
    change = change_from_json times f64_of n.kind n.proposed

    inserted : User → Result ContributionError (Tables × ℕ)
    inserted u = ok (
      record t { proposals = t.proposals ++ (new_row new_id n u.public_contribution_name ∷ []) },
      new_id,
    )

    author : Result ContributionError (Tables × ℕ)
    author = require not_verified (find (is_voter n.proposer_id) t.users) >>= inserted

    readable : Result ContributionError (Tables × ℕ)
    readable = ensure (not (is_unknown change)) (invalid_field "invalid proposal") >> author

    current : Location → Result ContributionError (Tables × ℕ)
    current l = ensure (l.version == n.base_version) version_conflict >> readable

    guarded : Location → Result ContributionError (Tables × ℕ)
    guarded l = ensure (is_active l.moderation_state) location_not_active >> current l

module _ (Limiter : Type 0) (check : Limiter → String → ℕ → ℕ → Limiter × Option Bool)
    (times : TimeText) (f64_of : ℤ → ℕ) (parse_timezone : String → Option String)
    (resolve : ℕ → ℕ → Option String) where
  abbrev pub Members : Type 0
  Members = Community Limiter check times f64_of parse_timezone resolve

  abbrev Ask : Type 0 → Type 0
  Ask A = Request Limiter check times f64_of parse_timezone resolve A

  abbrev bind : {A B : Type 0} → Ask A → (A → Ask B) → Ask B
  bind m k = bikesnest.Contribute.◌>>=◌ Limiter check times f64_of parse_timezone resolve m k

  -- A request that leaves the listings, and one that files a proposal at most.
  abbrev Leaves : {A : Type 0} → Ask A → Type 0
  Leaves m = (c : Members) → Community.listing (m c).0 ≡ c.listing

  abbrev Files : {A : Type 0} → Ask A → Type 0
  Files m = (c : Members) → Filed c.listing (Community.listing (m c).0)

  bind-Files :
      {A B : Type 0} (m : Ask A) (k : A → Ask B)
      → Leaves m
      → ((a : A) → Files (k a))
      → Files (bind m k)
  unfolding bikesnest.Contribute.◌>>=◌ continue
  bind-Files {A} m k h f c = go (m c) (h c)
    where
      go :
          (r : Members × Result ContributionError A)
          → Community.listing r.0 ≡ c.listing
          → Filed c.listing
              (Community.listing (continue Limiter check times f64_of parse_timezone resolve k r).0)
      go (c1, ok a) e = subst (λ s. Filed s (Community.listing (k a c1).0)) e (f a c1)
      go (c1, err x) e = subst (λ s. Filed s (Community.listing c1)) e nothing

  bind-Leaves :
      {A B : Type 0} (m : Ask A) (k : A → Ask B)
      → Leaves m
      → ((a : A) → Leaves (k a))
      → Leaves (bind m k)
  unfolding bikesnest.Contribute.◌>>=◌ continue
  bind-Leaves {A} m k h f c = go (m c) (h c)
    where
      go :
          (r : Members × Result ContributionError A)
          → Community.listing r.0 ≡ c.listing
          → Community.listing (continue Limiter check times f64_of parse_timezone resolve k r).0
            ≡ c.listing
      go (c1, ok a) e = f a c1 ∙ e
      go (c1, err x) e = e

  Files-bind :
      {A B : Type 0} (m : Ask A) (k : A → Ask B)
      → Files m
      → ((a : A) → Leaves (k a))
      → Files (bind m k)
  unfolding bikesnest.Contribute.◌>>=◌ continue
  Files-bind {A} m k h f c = go (m c) (h c)
    where
      go :
          (r : Members × Result ContributionError A)
          → Filed c.listing (Community.listing r.0)
          → Filed c.listing
              (Community.listing (continue Limiter check times f64_of parse_timezone resolve k r).0)
      go (c1, ok a) e = subst (Filed c.listing) (sym (f a c1)) e
      go (c1, err x) e = e

  allowed-leaves :
      (key : String) (limit window : ℕ) (c : Members)
      → Community.listing
          (allowed Limiter check times f64_of parse_timezone resolve key limit window c).0
        ≡ c.listing
  unfolding allowed
  allowed-leaves key limit window c = refl

  module _ (failures : Failures) where
    require_active-leaves :
        (id : ℕ) (c : Members)
        → Community.listing
            (require_active Limiter check times f64_of parse_timezone resolve failures id c).0
          ≡ c.listing
    unfolding require_active
    require_active-leaves id =
        bind-Leaves _ _ (λ c. refl) λ l. bind-Leaves _ _ (λ c. refl) λ u c. refl

    commit-Filed :
        (c : Members) (r : Result ContributionError (Tables × ℕ))
        → ((after : Tables) (id : ℕ) → r ≡ ok (after, id) → Filed c.listing after)
        → Filed c.listing (
            Community.listing
              (commit Limiter check times f64_of parse_timezone resolve failures c r).0)
    commit-Filed c (ok (t, id)) h = h t id refl
    commit-Filed c (err e) h = nothing

    store-Filed :
        (w : Option ContributionError) (new_id : ℕ) (p : NewProposal) (c : Members)
        → Filed c.listing (
            Community.listing
              (store Limiter check times f64_of parse_timezone resolve failures w new_id p c).0)
    store-Filed (some e) new_id p c = nothing
    store-Filed none new_id p c =
        commit-Filed c (create_proposal times f64_of new_id p c.listing)
          λ after id e. create_proposal-Filed times f64_of new_id p c.listing after id e

    propose-Filed :
        (u : Member) (kind : ProposalKind) (p : NewProposal) (new_id : ℕ) (c : Members)
        → Filed c.listing (
            Community.listing
              (propose Limiter check times f64_of parse_timezone resolve failures u kind p new_id
                c).0)
    unfolding propose
    propose-Filed u kind p new_id =
        Files-bind _ _ (store-Filed failures.on_write new_id p)
          λ id. bind-Leaves _ _ (logged_leaves failures.on_audit _) λ a c. refl
      where
        logged_leaves :
            (b : Bool) (event : AuditEvent) (c1 : Members)
            → Community.listing
                (logged Limiter check times f64_of parse_timezone resolve failures b event c1).0
              ≡ c1.listing
        logged_leaves true event c1 = refl
        logged_leaves false event c1 = refl

    -- Proposing never publishes: whatever a member asks for, whatever the limiter, the database and the
    -- audit log do, an edit and a change of place or existence leave the tables as they were, or add
    -- exactly one pending proposal, written against the current version of an active listing; no
    -- listing, revision, vote or other proposal changes.
    pub proposing-Filed :
        (u : Member) (id expected new_id : ℕ) (e : ParkingEdit) (kind : ProposalKind)
        (proposed : Json) (c : Members)
        → Filed c.listing (
            Community.listing
              (apply_parking_edit Limiter check times f64_of parse_timezone resolve failures u id
                expected e new_id c).0)
          × Filed c.listing (
              Community.listing
                (propose_location_change Limiter check times f64_of parse_timezone resolve failures
                  u id kind proposed new_id c).0)
    unfolding apply_parking_edit propose_location_change
    proposing-Filed u id expected new_id e kind proposed c = (
      bind-Files _ _ (λ c1. refl)
          (λ a. bind-Files _ _ (allowed-leaves _ _ _) (λ a1.
            bind-Files _ _ (λ c1. refl)
              (λ a2. bind-Files _ _ (require_active-leaves id) (λ l.
                bind-Files _ _ (λ c1. refl)
                  (λ a3. bind-Files _ _ (λ c1. refl) (λ x. propose-Filed u _ _ new_id))))))
          c,
      bind-Files _ _ (λ c1. refl)
          (λ a. bind-Files _ _ (allowed-leaves _ _ _) (λ a1.
            bind-Files _ _ (require_active-leaves id)
              (λ l. bind-Files _ _ (λ c1. refl) (λ change. propose-Filed u kind _ new_id))))
          c,
    )
