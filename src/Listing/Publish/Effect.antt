-- ===== src/Listing/Publish/Effect.antt =====
-- What an approval leaves of a listing and of its proposals
-- (`approve_in_transaction`, crates/infrastructure/src/moderation/actions.rs).
use mathlib.Core.Path.{subst}
use bikesnest.Prelude.{
  String, ℕ, suc, ◌≡◌, refl, ap, sym, ◌∙◌, Bool, true, false, ◌&&◌, not, Option, none, some, List,
  ◌∷◌, Result, ok, err, ◌==◌, if◌then◌else◌, All, Bool-cases, inl, inr, arith, ==_iff,
}
use bikesnest.Domain.Codes.ProposalStatus.{superseded, approved}
use bikesnest.Domain.ParkingEdit.{TimeText}
use bikesnest.Moderation.Error.{ModerationError, invalid_state}
use bikesnest.Listing.{
  approve, reject, tally, Revision, Location, Proposal, Tables, is_pending, is_active, ok_inj,
}
use bikesnest.Listing.Rows.{
  find, update_where, find-update_where, All-update_where, All-map, find_passes, some_not_none,
}
use bikesnest.Listing.Application.{ProposalApplication}
use bikesnest.Listing.Publish.{
  has_location, has_proposal, is_superseded, supersede, is_target, is_other, changed, approved_by,
  approve_in_transaction,
}
use bikesnest.Listing.Snapshot.Codes.{state_at}
use bikesnest.Listing.Publish.Asked.{
  asked, asked_hours, asked_state, changed-asked, detailed-hours, detailed-state,
}
use bikesnest.Listing.Publish.Sound.{
  Backed, IsBacked, IsSound, IsSound_by, listing_of_pending, found_by_id,
}
use bikesnest.Listing.Publish.Sound.Written.{
  HasUniqueIds-written, find-written, All-Recorded-written, All-Backed-written,
}
use bikesnest.Listing.Publish.Decides.{
  changed-id, changed-version, with_listing-rest, with_listing-voters, refusal, with_revision,
  new_revision, published, approve_in_transaction-decides, target-hit, is_target-narrow,
}

-- A proposal that is still pending is of another listing, and what was known of it still is.
abbrev pub IsElsewhere : List Location → ℕ → Proposal → Type 0
IsElsewhere ls id p = is_pending p.status ≡ true → ((p.location_id == id) ≡ false) × Backed ls p

passed_over :
    (here waits one : Bool)
    → here && waits && not one ≡ false
    → waits ≡ true
    → one ≡ false
    → here ≡ false
passed_over true waits one e w o = ground (arith, e, w, o)
passed_over false waits one e w o = refl

-- The decision, and the retirement of the listing's other pending proposals.
pub decided-IsElsewhere :
    (ls : List Location) (id location : ℕ) (decide : Proposal → Proposal) (ps : List Proposal)
    → ((p : Proposal) → is_pending (decide p).status ≡ false)
    → All (IsBacked ls) ps
    → All
        (IsElsewhere ls location)
        (supersede location (some id) (update_where (has_proposal id) decide ps))
unfolding supersede
decided-IsElsewhere ls id location decide ps over h =
    All-update_where (is_superseded location (some id)) _ (update_where (has_proposal id) decide ps)
      (λ p k hit waits. cc)
      (λ p k out waits.
        let (other, backed) = k waits in
        (
          passed_over (p.location_id == location) (is_pending p.status) (Proposal.id p == id) out
              waits other,
          backed,
        ))
      decided
  where
    Waiting : Proposal → Type 0
    Waiting p = is_pending p.status ≡ true → ((p.id == id) ≡ false) × Backed ls p

    decided : All Waiting (update_where (has_proposal id) decide ps)
    decided =
        All-update_where (has_proposal id) decide ps (λ p k hit waits. absurd (cc (over p, waits)))
          (λ p k out waits. (out, k waits)) h

pub retired-IsElsewhere :
    (ls : List Location) (location : ℕ) (ps : List Proposal)
    → All (IsBacked ls) ps
    → All (IsElsewhere ls location) (supersede location none ps)
unfolding supersede
retired-IsElsewhere ls location ps h =
    All-update_where (is_superseded location none) _ ps (λ p k hit waits. cc)
      (λ p k out waits. (
        passed_over (p.location_id == location) (is_pending p.status) false out waits refl,
        k waits,
      ))
      h

module _ (times : TimeText) (now id moderator : ℕ) (a : ProposalApplication) (t : Tables) where
  pub published-IsSound :
      (l : Location)
      → IsSound t
      → find (has_location l.id) t.locations ≡ some l
      → (let active = is_target a l.id l.version l in active ≡ true)
      → IsSound (published times now id moderator a t l)
  unfolding approved_by
  published-IsSound l sound found hit =
      let target = is_target a l.id l.version in
      let set = changed now a in
      let decide = approved_by now moderator (with_revision times now id moderator a t l) in
      let new = new_revision times now id moderator a t l in
      let narrow = is_target-narrow a l.id l.version in
      let (revisions, proposals, locations) = with_listing-rest times now id moderator a t l in
      IsSound_by (published times now id moderator a t l) (update_where target set t.locations) _ _
        locations (ap (λ rs. new ∷ rs) revisions)
        (ap (λ ps. supersede l.id (some id) (update_where (has_proposal id) decide ps)) proposals)
        (HasUniqueIds-written set (changed-id now a) (changed-version now a) target l.id narrow
          t.locations t.locations sound.unique)
        (All-Backed-written set (changed-id now a) (changed-version now a) target l.id narrow
          t.locations l found hit new (changed-id now a l) (changed-version now a l) _
          (decided-IsElsewhere t.locations id l.id decide t.proposals (λ p. refl) sound.pending))
        (All-Recorded-written set (changed-id now a) (changed-version now a) target l.id narrow
          t.locations l found hit new (changed-id now a l) (changed-version now a l) t.revisions
          sound.recorded)

  -- What the tables are after an approval that went through.
  pub record IsPublished (p : Proposal) (l : Location) (after : Tables) : Type 0 where
    pub decided :
        find (has_proposal id) after.proposals
        ≡ some record p {
          status = approved;
          resolved_by = some moderator;
          resolved_at = some now;
          decision_approvals = some (tally t p.id approve);
          decision_rejections = some (tally t p.id reject);
        }
    pub listing : find (has_location l.id) after.locations ≡ some (asked now a l)
    pub hours : after.opening_hours ≡ asked_hours l.id a t.opening_hours
    pub security :
        (k : ℕ) (code : String)
        → state_at k code after.security ≡ asked_state l.id a k code (state_at k code t.security)
    pub revision :
        (r : Revision) × (after.revisions ≡ r ∷ t.revisions)
        × (r.location_id ≡ l.id)
        × (r.version ≡ suc l.version)
        × (r.editor_id ≡ some moderator)
    pub none_waits :
        All (λ q. is_pending q.status ≡ true → ((q.location_id == l.id) ≡ false)) after.proposals
    pub sound : IsSound after

  -- The tally of the decision is that of the tables before it.
  decision-eq :
      (p : Proposal) (l : Location)
      → approved_by now moderator (with_revision times now id moderator a t l) p ≡ record p {
        status = approved;
        resolved_by = some moderator;
        resolved_at = some now;
        decision_approvals = some (tally t p.id approve);
        decision_rejections = some (tally t p.id reject);
      }
  unfolding approved_by tally
  decision-eq p l =
      let (votes, users) = with_listing-voters times now id moderator a t l in
      rw (votes, users) refl

  answered :
      (r : Option ModerationError) (done after : Tables)
      → (let answer : Result ModerationError Tables = elim r [ none ↦ ok done | some e ↦ err e ] in
          answer ≡ ok after)
      → (r ≡ none) × (done ≡ after)
  answered none done after e = (refl, ok_inj e)
  answered (some x) done after e = cc

  waits_of :
      (p : Proposal) (l : Location) → refusal p l moderator a ≡ none → is_pending p.status ≡ true
  waits_of p l e = elim (Bool-cases (is_pending p.status)) [
    | inl w ↦ w
    | inr o ↦ absurd (some_not_none (rw o at e))
  ]

  closed : (x y : Bool) → x && false && y ≡ false
  closed true y = refl
  closed false y = refl

  find-supersede :
      (location k : ℕ) (except : Option ℕ) (ps : List Proposal) (p : Proposal)
      → find (has_proposal k) ps ≡ some p
      → is_superseded location except p ≡ false
      → find (has_proposal k) (supersede location except ps) ≡ some p
  unfolding supersede
  find-supersede location k except ps p f out =
      rw
        (
          find-update_where (has_proposal k) (is_superseded location except)
              (λ q. record q { status = superseded }) ps (λ q. refl),
          f,
          out,
        )
        refl

  find-decided :
      (u : Tables) (ps : List Proposal) (p : Proposal)
      → find (has_proposal id) ps ≡ some p
      → find (has_proposal id) (update_where (has_proposal id) (approved_by now moderator u) ps)
        ≡ some (approved_by now moderator u p)
  unfolding approved_by
  find-decided u ps p f =
      rw
        (
          find-update_where (has_proposal id) (has_proposal id) (approved_by now moderator u) ps
              (λ q. refl),
          f,
          find_passes (has_proposal id) ps p f,
        )
        refl

  published-IsPublished :
      (p : Proposal) (l : Location)
      → IsSound t
      → find (has_proposal id) t.proposals ≡ some p
      → find (has_location l.id) t.locations ≡ some l
      → is_active l.moderation_state ≡ true
      → IsPublished p l (published times now id moderator a t l)
  unfolding approved_by
  published-IsPublished p l sound fp fl active =
      let after = with_revision times now id moderator a t l in
      let decide = approved_by now moderator after in
      let target = is_target a l.id l.version in
      record {
        decided =
            find-supersede l.id id (some id) _ _
              (ap (λ ps. find (has_proposal id) (update_where (has_proposal id) decide ps))
                  (with_listing-rest times now id moderator a t l).1
                ∙ find-decided after t.proposals p fp)
              (closed (p.location_id == l.id) (is_other (some id) p.id))
            ∙ ap some (decision-eq p l);
        listing =
            ap (find (has_location l.id)) (with_listing-rest times now id moderator a t l).2
            ∙ find-written (changed now a) (changed-id now a) (changed-version now a) target l.id
                (is_target-narrow a l.id l.version) t.locations l.id l fl
            ∙ ap (λ b. some (if b then changed now a l else l))
                (target-hit times now id moderator a t l active)
            ∙ ap some (changed-asked now a l);
        hours = detailed-hours l.id a _;
        security = detailed-state l.id a _;
        revision = (
          new_revision times now id moderator a t l,
          ap (λ rs. new_revision times now id moderator a t l ∷ rs)
              (with_listing-rest times now id moderator a t l).0,
          changed-id now a l,
          changed-version now a l,
          refl,
        );
        none_waits = rw (with_listing-rest times now id moderator a t l).1 (
            All-map _ (λ q k waits. (k waits).0)
              (decided-IsElsewhere t.locations id l.id decide t.proposals (λ q. refl)
                sound.pending));
        sound = published-IsSound l sound fl (target-hit times now id moderator a t l active);
      }

  -- An approval that goes through, on sound tables, decides its proposal in the moderator's name, at that
  -- time and with the eligible approvals and rejections of that time; gives the listing its next
  -- version, with every column that was asked for; replaces its opening hours and sets its known
  -- security attributes if it is an edit, and touches no others; records one revision, of that version
  -- and by that moderator; leaves no proposal of the listing pending; and leaves the tables sound.
  pub approve_in_transaction-IsPublished :
      (p : Proposal) (l : Location) (after : Tables)
      → IsSound t
      → find (has_proposal id) t.proposals ≡ some p
      → find (has_location p.location_id) t.locations ≡ some l
      → approve_in_transaction times now id moderator a t ≡ ok after
      → IsPublished p l after
  approve_in_transaction-IsPublished p l after sound fp fl e =
      let (free, same) =
        answered (refusal p l moderator a) _ after
          (sym (approve_in_transaction-decides times now id moderator a t p l sound fp fl) ∙ e) in
      subst (IsPublished p l) same (
        published-IsPublished p l sound fp (found_by_id t.locations p.location_id l fl)
          (listing_of_pending t id p l sound fp fl (waits_of p l free)))

-- A proposal is approved at most once: after an approval that went through, on sound tables, every
-- approval of it, by anyone and at any time, is refused as no longer open.
pub approve_in_transaction-once :
    (times : TimeText) (now id moderator : ℕ) (a : ProposalApplication) (t : Tables) (p : Proposal)
    (l : Location) (after : Tables)
    → IsSound t
    → find (has_proposal id) t.proposals ≡ some p
    → find (has_location p.location_id) t.locations ≡ some l
    → approve_in_transaction times now id moderator a t ≡ ok after
    → (later other : ℕ) (b : ProposalApplication)
    → approve_in_transaction times later id other b after ≡ err invalid_state
unfolding approved_by
approve_in_transaction-once times now id moderator a t p l after sound fp fl e later other b =
    let done =
      approve_in_transaction-IsPublished times now id moderator a t p l after sound fp fl e in
    let same : l.id ≡ p.location_id =
      (==_iff l.id p.location_id).0 (find_passes (has_location p.location_id) t.locations l fl) in
    approve_in_transaction-decides times later id other b after _ (asked now a l) done.sound
      done.decided (ap (λ k. find (has_location k) after.locations) (sym same) ∙ done.listing)
