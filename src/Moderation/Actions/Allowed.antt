-- ===== src/Moderation/Actions/Allowed.antt =====
-- What an approval does from the form to the tables
-- (crates/application/src/moderation.rs).
use bikesnest.Prelude.{
  sym, ◌∙◌, ℕ, ◌≡◌, refl, ap, String, Bool, true, false, Option, none, some, ◌∷◌, Result, ok, err,
  show_ℕ, Result-cases, inl, inr,
}
use bikesnest.Prelude.Int.{ℤ}
use bikesnest.Json.{Json, object, field, end, string}
use bikesnest.Domain.Codes.ProposalKind.{as_code}
use bikesnest.Domain.ParkingEdit.{TimeText}
use bikesnest.Domain.Proposal.{ProposalPayload, payload_from_json}
use bikesnest.Moderation.Error.{ModerationError}
use bikesnest.Moderation.Service.{
  AuthenticatedUser, AuditEvent, Desk, is_moderator, require_moderator, refuse_unless, continue,
  outside,
}
use bikesnest.Listing.{Tables, Proposal, Location}
use bikesnest.Listing.Rows.{find}
use bikesnest.Listing.Application.{ProposalOverride, ProposalApplication, merge, application_kind}
use bikesnest.Listing.Publish.{has_location, has_proposal, approve_in_transaction}
use bikesnest.Listing.Publish.Sound.{IsSound}
use bikesnest.Listing.Publish.Decides.{refusal, published, approve_in_transaction-decides}
use bikesnest.Listing.Publish.Effect.{IsPublished, approve_in_transaction-IsPublished}
use mathlib.Core.Path.{subst}
use bikesnest.Listing.Content.{Contents}
use bikesnest.Moderation.Actions.{
  Site, site, ◌>>=◌, on_contents, act, audit_action, commit_listing, approve_action, approve_merged,
  get_proposal,
}

module _ (Limiter : Type 0) (check : Limiter → String → ℕ → ℕ → Limiter × Option Bool)
    (times : TimeText) (now : ℕ) where
  abbrev pub Office : Type 0
  Office = Desk (site Limiter check times now)

  -- An action of a moderator on the tables of the listings, from what the tables answer.
  act-listing :
      (u : AuthenticatedUser) (action target_type : String) (id : ℕ) (metadata : Json)
      (op : Contents → Contents × Result ModerationError (Unit {0})) (d : Office)
      (r : Option ModerationError) (t : Tables)
      → op (Site.contents d.world)
        ≡ commit_listing (Site.contents d.world) (elim r [ none ↦ ok t | some e ↦ err e ])
      → is_moderator u ≡ true
      → act Limiter check times now false u action target_type id metadata op d ≡ elim r [
        | none ↦ (
          record d {
            world = record (d.world) { contents = record (Site.contents d.world) { listing = t } };
            audit_log =
                record {
                  actor_user_id = some u.id;
                  action = action;
                  target_type = target_type;
                  target_id = show_ℕ id;
                  result = "success";
                  metadata = metadata;
                }
                ∷ d.audit_log;
          },
          ok tt,
        )
        | some e ↦ (d, err e)
      ]
  unfolding act require_moderator refuse_unless ◌>>=◌ continue outside on_contents audit_action
  act-listing u action target_type id metadata op d none t e h = rw (h, e) refl
  act-listing u action target_type id metadata op d (some x) t e h = rw (h, e) refl

  moderator_passes :
      (u : AuthenticatedUser) (d : Office)
      → is_moderator u ≡ true
      → require_moderator (site Limiter check times now) u d ≡ (d, ok tt)
  unfolding require_moderator refuse_unless
  moderator_passes u d h = rw h refl

  module _ (u : AuthenticatedUser) (f64_of : ℤ → ℕ) (parse_timezone : String → Option String)
      (id : ℕ) (over : ProposalOverride) where
    -- The desk after an approval: the listing's tables, and a line of the audit log.
    abbrev pub approval_line : ProposalApplication → AuditEvent
    approval_line a = record {
      actor_user_id = some u.id;
      action = "proposal.approved";
      target_type = "parking_proposal";
      target_id = show_ℕ id;
      result = "success";
      metadata = object (field "kind" (string (as_code (application_kind a))) end);
    }

    abbrev pub with_listing : Tables → Office → Office
    with_listing t d = record d {
      world = record (d.world) { contents = record (Site.contents d.world) { listing = t } };
    }

    abbrev pub approved_desk : ProposalApplication → Location → Tables → Office → Office
    approved_desk a l t d =
        let e = with_listing (published times now id u.id a t l) d in
        record e { audit_log = approval_line a ∷ d.audit_log }

    -- The answer of an approval, from what the form and the payload merge into.
    abbrev pub approval_of :
        Proposal
        → Location
        → Tables
        → Office
        → Result ModerationError ProposalApplication
        → Office × Result ModerationError (Unit {0})
    approval_of p l t d (err e) = (d, err e)
    approval_of p l t d (ok a) = elim (refusal p l u.id a) [
      | none ↦ (approved_desk a l t d, ok tt)
      | some e ↦ (d, err e)
    ]

    merged_goes :
        (p : Proposal) (l : Location) (d : Office) (a : ProposalApplication)
        → let t = Contents.listing (Site.contents d.world) in
          IsSound t
          → find (has_proposal id) t.proposals ≡ some p
          → find (has_location p.location_id) t.locations ≡ some l
          → is_moderator u ≡ true
          → approve_merged Limiter check times now false u f64_of parse_timezone id a d
            ≡ approval_of p l t d (ok a)
    unfolding approve_merged
    merged_goes p l d a sound fp fl h =
        let t = Contents.listing (Site.contents d.world) in
        act-listing u "proposal.approved" "parking_proposal" id
          (object (field "kind" (string (as_code (application_kind a))) end))
          (λ c. commit_listing c (approve_in_transaction times now id u.id a c.listing)) d
          (refusal p l u.id a) (published times now id u.id a t l)
          (ap (commit_listing (Site.contents d.world))
            (approve_in_transaction-decides times now id u.id a t p l sound fp fl))
          h

    found_proposal :
        (p : Proposal) (l : Location) (t : Tables)
        → find (has_proposal id) t.proposals ≡ some p
        → find (has_location p.location_id) t.locations ≡ some l
        → get_proposal Limiter check times now false u id t ≡ some p
    unfolding get_proposal
    found_proposal p l t fp fl = rw (fp, fl) refl

    approve_action-answers :
        (p : Proposal) (l : Location) (d : Office)
        → let t = Contents.listing (Site.contents d.world) in
          IsSound t
          → find (has_proposal id) t.proposals ≡ some p
          → find (has_location p.location_id) t.locations ≡ some l
          → is_moderator u ≡ true
          → approve_action Limiter check times now false u f64_of parse_timezone id over d
            ≡ approval_of p l t d (
                merge parse_timezone p.kind
                  (ProposalPayload.change (payload_from_json times f64_of p.kind p.proposed))
                  over)
    unfolding approve_action ◌>>=◌ continue
    approve_action-answers p l d sound fp fl h =
        let t = Contents.listing (Site.contents d.world) in
        let change = ProposalPayload.change (payload_from_json times f64_of p.kind p.proposed) in
        elim (Result-cases (merge parse_timezone p.kind change over)) [
          | inl (a, e) ↦
              rw (moderator_passes u d h, found_proposal p l t fp fl, e)
                (merged_goes p l d a sound fp fl h)
          | inr (x, e) ↦ rw (moderator_passes u d h, found_proposal p l t fp fl, e) refl
        ]

    -- What an approval does, from whether it is refused: the desk is as it was, or the tables are
    -- published and one line of the audit log is added, and nothing else of the desk changes.
    abbrev pub IsDecided :
        Proposal
        → Location
        → Office
        → ProposalApplication
        → Option ModerationError
        → Office × Result ModerationError (Unit {0})
        → Type 0
    IsDecided p l d a (some e) r = r ≡ (d, err e)
    IsDecided p l d a none r =
        (after : Tables) × (r
          ≡ (record (with_listing after d) { audit_log = approval_line a ∷ d.audit_log }, ok tt))
        × IsPublished times now id u.id a (Contents.listing (Site.contents d.world)) p l after

    abbrev pub IsAnswered :
        Proposal
        → Location
        → Office
        → Result ModerationError ProposalApplication
        → Office × Result ModerationError (Unit {0})
        → Type 0
    IsAnswered p l d (err e) r = r ≡ (d, err e)
    IsAnswered p l d (ok a) r = IsDecided p l d a (refusal p l u.id a) r

    approval_of-IsAnswered :
        (p : Proposal) (l : Location) (d : Office) (m : Result ModerationError ProposalApplication)
        → let t = Contents.listing (Site.contents d.world) in
          IsSound t
          → find (has_proposal id) t.proposals ≡ some p
          → find (has_location p.location_id) t.locations ≡ some l
          → IsAnswered p l d m (approval_of p l t d m)
    approval_of-IsAnswered p l d (err e) sound fp fl = refl
    approval_of-IsAnswered p l d (ok a) sound fp fl = go (refusal p l u.id a) refl
      where
        go :
            (o : Option ModerationError)
            → refusal p l u.id a ≡ o
            → IsDecided p l d a o (elim o [
              | none ↦ (approved_desk a l (Contents.listing (Site.contents d.world)) d, ok tt)
              | some e ↦ (d, err e)
            ])
        go (some e) refused = refl
        go none free = (
          published times now id u.id a (Contents.listing (Site.contents d.world)) l,
          refl,
          approve_in_transaction-IsPublished times now id u.id a _ p l _ sound fp fl (
              approve_in_transaction-decides times now id u.id a _ p l sound fp fl
              ∙ ap
                  (λ o. elim o [
                    | none ↦
                        ok (
                          published times now id u.id a (Contents.listing (Site.contents d.world))
                            l)
                    | some e ↦ err e
                  ])
                  free),
        )

    -- A moderator's approval of a proposal, where the tables are sound and the log can be written: it fails
    -- with the error of the merge where the form and the stored payload merge into no change, with the
    -- reason of the refusal where the proposal may not be approved or the hours of the edit cannot be
    -- stored, and in both cases nothing changes; otherwise it answers with success, the merged change
    -- is published, and exactly one line of the audit log says so, with nothing else changed.
    pub approve_action-decides :
        (p : Proposal) (l : Location) (d : Office)
        → let t = Contents.listing (Site.contents d.world) in
          IsSound t
          → find (has_proposal id) t.proposals ≡ some p
          → find (has_location p.location_id) t.locations ≡ some l
          → is_moderator u ≡ true
          → IsAnswered p l d
              (merge parse_timezone p.kind
                (ProposalPayload.change (payload_from_json times f64_of p.kind p.proposed))
                over)
              (approve_action Limiter check times now false u f64_of parse_timezone id over d)
    approve_action-decides p l d sound fp fl h =
        subst (IsAnswered p l d _) (sym (approve_action-answers p l d sound fp fl h))
          (approval_of-IsAnswered p l d _ sound fp fl)
