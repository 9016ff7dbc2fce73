-- ===== src/Moderation/Actions.antt =====
-- ModerationService: the actions on contents and on proposals (crates/application/src/moderation.rs),
-- with the contents as the repository keeps them. The rate limiter stays an interface.
pub mod Allowed
use bikesnest.Prelude.{
  ℕ, String, Bool, true, false, ◌||◌, Option, none, some, List, [], ◌∷◌, Result, ok, err, show_ℕ,
}
use bikesnest.Prelude.Int.{ℤ}
use bikesnest.Json.{Json, object, field, end, string}
use bikesnest.Domain.Codes.ModerationState.{ModerationState}
use bikesnest.Domain.Codes.ProposalKind.{as_code}
use bikesnest.Domain.ParkingEdit.{TimeText}
use bikesnest.Domain.Proposal.{ProposalPayload, payload_from_json}
use bikesnest.Moderation.Error.{ModerationError, not_found, internal}
use bikesnest.Moderation.Service.{
  AuthenticatedUser, AuditEvent, Ports, Desk, Request, require_moderator, outside, lift, give,
  continue,
}
use bikesnest.Listing.{Tables, Proposal, Location, is_active, require}
use bikesnest.Listing.Rows.{find}
use bikesnest.Listing.Application.{ProposalOverride, ProposalApplication, merge, application_kind}
use bikesnest.Listing.Publish.{
  has_location, has_proposal, set_parking_state, approve_in_transaction, reject_proposal,
}
use bikesnest.Listing.Content.{
  Contents, PhotoKind, of_parking, of_review, hide_review, restore_review, hide_photo,
  restore_photo, target_exists,
}

-- A transaction of the repository: an error leaves the contents as they were.
abbrev pub commit :
    Contents → Result ModerationError Contents → Contents × Result ModerationError (Unit {0})
commit c (ok after) = (after, ok tt)
commit c (err e) = (c, err e)

abbrev pub commit_listing :
    Contents → Result ModerationError Tables → Contents × Result ModerationError (Unit {0})
commit_listing c (ok t) = (record c { listing = t }, ok tt)
commit_listing c (err e) = (c, err e)

abbrev pub is_restorable : ModerationState → Bool
is_restorable ModerationState.invalidated = true
is_restorable ModerationState.removed = true
is_restorable _ = false

-- `PhotoKind::as_code`
abbrev pub photo_code : PhotoKind → String
photo_code of_parking = "parking"
photo_code of_review = "review"

module _ (Limiter : Type 0) (check : Limiter → String → ℕ → ℕ → Limiter × Option Bool)
    (times : TimeText) (now : ℕ) where
  pub record Site : Type 0 where
    pub limiter : Limiter
    pub contents : Contents

  unfoldable pub on_contents :
      {A : Type 0}
      → (Contents → Contents × Result ModerationError A)
      → Site
      → Site × Result ModerationError A
  on_contents op w = let (c, r) = op w.contents in (record w { contents = c }, r)

  unfoldable pub invalidate_active : ℕ → ℕ → Contents → Contents × Result ModerationError (Unit {0})
  unfolding set_parking_state
  invalidate_active id moderator c =
      commit_listing c
        (set_parking_state times now id is_active ModerationState.invalidated moderator c.listing)

  -- What the report service asks of the contents, answered by them.
  abbrev pub site : Ports
  site = record {
    World = Site;
    check = λ w key limit window.
        let (l, r) = check w.limiter key limit window in (record w { limiter = l }, r);
    target_exists = λ w target id. ok (target_exists target id w.contents);
    hide_review = λ w id m. on_contents (λ c. commit c (hide_review now id c)) w;
    hide_parking_photo = λ w id m. on_contents (hide_photo now of_parking id m) w;
    hide_review_photo = λ w id m. on_contents (hide_photo now of_review id m) w;
    invalidate_active_parking = λ w id m. on_contents (invalidate_active id m) w;
  }

  infixl 5 ◌>>=◌ ◌>>◌
  unfoldable pub ◌>>=◌ : {A B : Type 0} → Request site A → (A → Request site B) → Request site B
  unfolding continue
  (m >>= k) d = continue site k (m d)

  abbrev pub ◌>>◌ : {B : Type 0} → Request site (Unit {0}) → Request site B → Request site B
  m >> k = m >>= λ _. k

  -- `audit`; a failure of the log is `internal`.
  unfoldable pub audit_action : Bool → ℕ → String → String → ℕ → Json → Request site (Unit {0})
  audit_action true actor action target_type target_id metadata d = (d, err internal)
  audit_action false actor action target_type target_id metadata d = (
    record d {
      audit_log =
          record {
            actor_user_id = some actor;
            action = action;
            target_type = target_type;
            target_id = show_ℕ target_id;
            result = "success";
            metadata = metadata;
          }
          ∷ d.audit_log;
    },
    ok tt,
  )

  -- An action on the contents by a moderator, with its line in the audit log.
  unfoldable pub act :
      Bool
      → AuthenticatedUser
      → String
      → String
      → ℕ
      → Json
      → (Contents → Contents × Result ModerationError (Unit {0}))
      → Request site (Unit {0})
  unfolding require_moderator outside on_contents audit_action ◌>>=◌
  act log_fails u action target_type id metadata op = do
    require_moderator site u
    outside site (on_contents op)
    audit_action log_fails u.id action target_type id metadata

  module _ (log_fails : Bool) (u : AuthenticatedUser) where
    unfoldable pub hide_review_action : ℕ → Request site (Unit {0})
    unfolding act hide_review
    hide_review_action id =
        act log_fails u "review.hidden" "review" id (object end)
          (λ c. commit c (hide_review now id c))

    unfoldable pub restore_review_action : ℕ → Request site (Unit {0})
    unfolding act restore_review
    restore_review_action id =
        act log_fails u "review.restored" "review" id (object end)
          (λ c. commit c (restore_review now id c))

    unfoldable pub hide_photo_action : PhotoKind → ℕ → Request site (Unit {0})
    unfolding act hide_photo
    hide_photo_action kind id =
        act log_fails u "photo.hidden" (photo_code kind) id (object end)
          (hide_photo now kind id u.id)

    unfoldable pub restore_photo_action : PhotoKind → ℕ → Request site (Unit {0})
    unfolding act restore_photo
    restore_photo_action kind id =
        act log_fails u "photo.restored" (photo_code kind) id (object end)
          (restore_photo now kind id u.id)

    unfoldable pub invalidate_parking : ℕ → Request site (Unit {0})
    unfolding act invalidate_active
    invalidate_parking id =
        act log_fails u "parking.invalidated" "parking_location" id (object end)
          (invalidate_active id u.id)

    unfoldable pub restore_parking : ℕ → Request site (Unit {0})
    unfolding act set_parking_state
    restore_parking id = act log_fails u "parking.restored" "parking_location" id (object end) λ c.
        commit_listing c
          (set_parking_state times now id is_restorable ModerationState.active u.id c.listing)

    unfoldable pub reject_action : ℕ → String → Request site (Unit {0})
    unfolding act reject_proposal
    reject_action id reason =
        act log_fails u "proposal.rejected" "parking_proposal" id
          (object (field "reason" (string reason) end))
          λ c.
            let (t, r) = reject_proposal times now id u.id reason c.listing in
            (record c { listing = t }, r)

    -- `get_proposal`: the proposal, where its listing is there too.
    abbrev pub at_listing : Proposal → Option Location → Option Proposal
    at_listing p none = none
    at_listing p (some l) = some p

    abbrev pub listed : Option Proposal → Tables → Option Proposal
    listed none t = none
    listed (some p) t = at_listing p (find (has_location p.location_id) t.locations)

    unfoldable pub get_proposal : ℕ → Tables → Option Proposal
    unfolding find
    get_proposal id t = listed (find (has_proposal id) t.proposals) t

    module _ (f64_of : ℤ → ℕ) (parse_timezone : String → Option String) where
      unfoldable pub approve_merged : ℕ → ProposalApplication → Request site (Unit {0})
      unfolding act approve_in_transaction application_kind as_code
      approve_merged id applied =
          act log_fails u "proposal.approved" "parking_proposal" id
            (object (field "kind" (string (as_code (application_kind applied))) end))
            λ c. commit_listing c (approve_in_transaction times now id u.id applied c.listing)

      unfoldable pub approve_action : ℕ → ProposalOverride → Request site (Unit {0})
      unfolding require_moderator get_proposal payload_from_json merge approve_merged ◌>>=◌
      approve_action id over = do
        require_moderator site u
        found ← λ d. (d, ok (get_proposal id (Contents.listing (Site.contents d.world))))
        p ← lift site (require not_found found)
        applied ← lift site (
            merge parse_timezone p.kind
              (ProposalPayload.change (payload_from_json times f64_of p.kind p.proposed)) over)
        approve_merged id applied
