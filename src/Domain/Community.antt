-- ===== src/Domain/Community.antt =====
-- Ratings, review bodies, the publishing threshold and confidence
-- (crates/domain/src/community.rs).
pub mod Signals
mod Tests
use bikesnest.Prelude.{
  ℕ, String, ◌+++◌, Bool, true, false, ◌&&◌, ◌||◌, Option, none, some, List, [], ◌∷◌, Result, ok,
  err, leb, ltb, ◌=s=◌, if◌then◌else◌, any, keep, trim, char_count, show_ℕ,
}
use bikesnest.Prelude.Int.{ℤ, pos, negsuc, ltb_ℤ}
use bikesnest.Domain.Error.{DomainError, invalid}
use bikesnest.Domain.Codes.ExistenceResult.{
  ExistenceResult, still_exists, no_longer_exists, info_changed,
}
use bikesnest.Domain.Codes.Confidence.{
  Confidence, reported, verified, recently_verified, stale, conflicting,
}
use bikesnest.Domain.Freshness
use bikesnest.Domain.Freshness.{DateTime, FreshnessThresholds, FreshnessCategory, categorize}

-- A `u8`.
pub record StarRating : Type 0 where
  pub value : ℕ

unfoldable pub new : ℕ → Result DomainError StarRating
new value =
    if leb 1 value && leb value 5
    then ok (record { value = value })
    else err (invalid ("rating must be between 1 and 5: " +++ show_ℕ value))

show_ℤ : ℤ → String
show_ℤ (pos n) = show_ℕ n
show_ℤ (negsuc n) = "-" +++ show_ℕ (ℕ.suc n)

-- From an `i16`.
unfoldable pub from_smallint : ℤ → Result DomainError StarRating
unfolding show_ℤ
from_smallint (pos n) =
    if leb 1 n && leb n 5
    then ok (record { value = n })
    else err (invalid ("rating must be between 1 and 5: " +++ show_ℕ n))
from_smallint (negsuc n) = err (invalid ("rating must be between 1 and 5: " +++ show_ℤ (negsuc n)))

unfoldable pub as_i16 : StarRating → ℤ
as_i16 r = pos r.value

pub record ReviewBody : Type 0 where
  pub text : String

unfoldable pub new_body : String → Result DomainError ReviewBody
new_body raw =
    let trimmed = trim raw in
    let len = char_count trimmed in
    if leb 1 len && leb len 2000
    then ok (record { text = trimmed })
    else err (invalid ("review body must be 1..=2000 characters: " +++ show_ℕ len))

unfoldable pub attribute_codes : List String
attribute_codes = "name" ∷ "address" ∷ "type" ∷ "cost" ∷ "hours" ∷ "security" ∷ "location" ∷ []

unfoldable pub is_known_attribute_code : String → Bool
unfolding attribute_codes
is_known_attribute_code code = any (λ c. c =s= code) attribute_codes

abbrev pub community_approvals_to_publish : ℕ
community_approvals_to_publish = 6

-- A tally is an `i64`.
unfoldable pub should_publish : ℤ → Bool
should_publish (pos n) = leb community_approvals_to_publish n
should_publish (negsuc n) = false

pub record ExistenceSignal : Type 0 where
  pub user : ℤ
  pub result : ExistenceResult
  pub at : DateTime

abbrev pub is_gone : ExistenceSignal → Bool
is_gone s = elim s.result [ no_longer_exists ↦ true | _ ↦ false ]

abbrev pub is_positive : ExistenceSignal → Bool
is_positive s = elim s.result [ still_exists ↦ true | _ ↦ false ]

-- `max_by` keeps the later of two equal elements.
unfoldable pub max_from : ExistenceSignal → List ExistenceSignal → ExistenceSignal
max_from best [] = best
max_from best (s ∷ rest) = max_from (if ltb_ℤ s.at best.at then best else s) rest

unfoldable pub latest_of : List ExistenceSignal → Option ExistenceSignal
unfolding max_from
latest_of [] = none
latest_of (s ∷ rest) = some (max_from s rest)

unfoldable pub of_category : FreshnessCategory → Confidence
of_category Freshness.fresh = recently_verified
of_category Freshness.recently_verified = verified
of_category Freshness.aging = verified
of_category Freshness.stale = stale
of_category Freshness.very_stale = stale
of_category Freshness.never = reported

abbrev is_nil {ℓ} : {A : Type ℓ} → List A → Bool
is_nil [] = true
is_nil (x ∷ xs) = false

abbrev of_latest : Option ExistenceSignal → DateTime → FreshnessThresholds → Confidence
of_latest none now thresholds = reported
of_latest (some latest) now thresholds = of_category (categorize (some latest.at) now thresholds)

unfoldable pub confidence : List ExistenceSignal → DateTime → FreshnessThresholds → Confidence
unfolding latest_of of_category
confidence signals now thresholds =
    if is_nil signals
    then reported
    else if any is_gone signals
    then conflicting
    else of_latest (latest_of (keep is_positive signals)) now thresholds
