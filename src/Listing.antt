-- ===== src/Listing.antt =====
-- Listings and what the community changes on them: the tables, the publication of proposals, the votes
-- and the ratings (crates/infrastructure/src/moderation/actions.rs,
-- crates/infrastructure/src/community, crates/application/src/moderation.rs). A row holds the columns
-- that this code reads or writes. A transaction gives the tables that it commits, or an error that
-- leaves them as they were; a failure of the database is such an error, at any of its statements.
pub mod Rows
pub mod Application
pub mod Snapshot
pub mod Publish
pub mod Contribution
pub mod Entry
pub mod Reach
pub mod Content
pub mod Tests
use bikesnest.Prelude.{
  ℕ, ◌≡◌, refl, String, Bool, true, false, ◌&&◌, ◌||◌, Option, none, some, List, Result, ok, err,
  any, ◌==◌, ◌>>=◌, ◌>>◌,
}
use bikesnest.Prelude.Int.{ℤ}
use bikesnest.Json.{Json}
use bikesnest.Domain.Codes.AccountState.{AccountState}
use bikesnest.Domain.Codes.ModerationState.{ModerationState}
use bikesnest.Domain.Codes.ProposalKind.{ProposalKind}
use bikesnest.Domain.Codes.ProposalStatus.{ProposalStatus}
use bikesnest.Domain.Codes.ChangeKind.{ChangeKind}
use bikesnest.Listing.Rows.{count}

-- `parking_location`. `rating_avg` is in hundredths, the column's two decimals.
pub record Location : Type 0 where
  pub id : ℕ
  pub name : String
  pub address : String
  pub description : Option String
  pub parking_type : String
  pub cost_kind : String
  pub price_cents : Option ℤ
  pub price_currency : Option String
  pub price_unit : Option String
  pub lat : ℕ
  pub lon : ℕ
  pub timezone : String
  pub hours_unknown : Bool
  pub moderation_state : ModerationState
  pub version : ℕ
  pub rating_avg : Option ℕ
  pub rating_count : ℕ
  pub updated_at : ℕ
  pub last_meaningful_update_at : ℕ

-- `opening_hours` and `parking_security`
pub record HourRow : Type 0 where
  pub location_id : ℕ
  pub day_of_week : ℕ
  pub opens_at : ℕ
  pub closes_at : ℕ
  pub is_all_day : Bool

pub record SecurityRow : Type 0 where
  pub location_id : ℕ
  pub feature_code : String
  pub state : ℕ

-- `parking_revision`, whose key is the pair of the location and the version
pub record Revision : Type 0 where
  pub location_id : ℕ
  pub version : ℕ
  pub editor_id : Option ℕ
  pub change_kind : ChangeKind
  pub summary : String
  pub snapshot : Json

-- `parking_proposal`
pub record Proposal : Type 0 where
  pub id : ℕ
  pub location_id : ℕ
  pub proposer_id : Option ℕ
  pub base_version : ℕ
  pub kind : ProposalKind
  pub proposed : Json
  pub status : ProposalStatus
  pub public_author : Bool
  pub escalated_at : Option ℕ
  pub resolved_by : Option ℕ
  pub resolved_at : Option ℕ
  pub decision_reason : Option String
  pub decision_approvals : Option ℕ
  pub decision_rejections : Option ℕ

pub data ProposalVote : Type 0 where
  approve reject : ProposalVote

-- `parking_proposal_vote`, whose key is the pair of the proposal and the voter
pub record Vote : Type 0 where
  pub proposal_id : ℕ
  pub voter_id : ℕ
  pub vote : ProposalVote

pub record User : Type 0 where
  pub id : ℕ
  pub account_state : AccountState
  pub email_verified_at : Option ℕ
  pub public_contribution_name : Bool

pub record Tables : Type 0 where
  pub locations : List Location
  pub opening_hours : List HourRow
  pub security : List SecurityRow
  pub revisions : List Revision
  pub proposals : List Proposal
  pub votes : List Vote
  pub users : List User

abbrev pub require : {E A : Type 0} → E → Option A → Result E A
require e none = err e
require e (some a) = ok a

abbrev pub ensure : {E : Type 0} → Bool → E → Result E (Unit {0})
ensure true e = ok tt
ensure false e = err e

pub ok_inj : {E A : Type 0} {a b : A} → (let r : Result E A = ok a in r ≡ ok b) → a ≡ b
ok_inj e = cc

pub err_not_ok {ℓ} :
    {E A : Type 0} {P : Type ℓ} {e : E} {a : A} → (let r : Result E A = err e in r ≡ ok a) → P
err_not_ok e = cc

-- What a request that goes through has met.
pub required {ℓ} :
    {E A B : Type 0} {P : Type ℓ} (e : E) (o : Option A) (k : A → Result E B) (b : B)
    → (require e o >>= k) ≡ ok b
    → ((a : A) → o ≡ some a → k a ≡ ok b → P)
    → P
required e none k b h go = cc
required e (some a) k b h go = go a refl h

pub ensured {ℓ} :
    {E B : Type 0} {P : Type ℓ} (test : Bool) (e : E) (m : Result E B) (b : B)
    → (ensure test e >> m) ≡ ok b
    → (test ≡ true → m ≡ ok b → P)
    → P
ensured true e m b h go = go refl h
ensured false e m b h go = cc

pub answered {ℓ} :
    {E A B : Type 0} {P : Type ℓ} (r : Result E A) (k : A → Result E B) (b : B)
    → (r >>= k) ≡ ok b
    → ((a : A) → r ≡ ok a → k a ≡ ok b → P)
    → P
answered (ok a) k b h go = go a refl h
answered (err e) k b h go = cc

-- The equalities of codes.
abbrev pub is_active : ModerationState → Bool
is_active ModerationState.active = true
is_active _ = false

abbrev pub is_pending : ProposalStatus → Bool
is_pending ProposalStatus.pending = true
is_pending _ = false

abbrev pub same_vote : ProposalVote → ProposalVote → Bool
same_vote approve approve = true
same_vote reject reject = true
same_vote _ _ = false

abbrev pub is_user : Option ℕ → ℕ → Bool
is_user none u = false
is_user (some v) u = v == u

abbrev pub is_some : {A : Type 0} → Option A → Bool
is_some none = false
is_some (some a) = true

abbrev pub is_active_account : AccountState → Bool
is_active_account AccountState.active = true
is_active_account _ = false

-- `eligible_voter!`: an active account with a verified address.
unfoldable pub eligible_voter : User → Bool
eligible_voter u = is_active_account u.account_state && is_some u.email_verified_at

unfoldable pub is_eligible : List User → ℕ → Bool
unfolding eligible_voter
is_eligible users id = any (λ u. (User.id u == id) && eligible_voter u) users

-- The eligible votes of one side on a proposal: `DECISION_TALLY_SET` and the counts of the listing.
unfoldable pub tally : Tables → ℕ → ProposalVote → ℕ
unfolding is_eligible count
tally t proposal side =
    count
      (λ v.
        (Vote.proposal_id v == proposal) && same_vote v.vote side && is_eligible t.users v.voter_id)
      t.votes
