-- ===== src/Listing/Content.antt =====
-- Reviews with the ratings that listings keep of them, and photos, as contributors and moderators change
-- them (crates/infrastructure/src/community/review.rs, crates/infrastructure/src/moderation/actions.rs).
pub mod Rated
pub mod Tests
use bikesnest.Prelude.{
  ℕ, suc, ◌+◌, ◌*◌, ◌/◌, ◌≡◌, String, Bool, true, false, ◌&&◌, Option, none, some, List, [], ◌∷◌,
  ◌++◌, Result, ok, err, any, ◌==◌, if◌then◌else◌, ◌>>=◌, ◌>>◌,
}
use bikesnest.Domain.Codes.ModerationState.{active, invalidated, removed}
use bikesnest.Domain.Codes.PhotoModerationState.{PhotoModerationState, approved, hidden}
use bikesnest.Domain.Codes.ReportTargetType.{ReportTargetType}
use bikesnest.Moderation.Error.{ModerationError, invalid_state}
use bikesnest.Listing.{Location, Tables, User, require, ensure}
use bikesnest.Listing.Rows.{find, update_where, count}
use bikesnest.Listing.Publish.{has_location}
use bikesnest.Listing.Contribution.{ContributionError, not_found, internal}

-- The states of a review that this code writes.
pub data ReviewState : Type 0 where
  shown taken_down : ReviewState

abbrev pub same_state : ReviewState → ReviewState → Bool
same_state shown shown = true
same_state taken_down taken_down = true
same_state _ _ = false

-- `review`, whose ids are its key, and so are its pairs of a location and an author
pub record Review : Type 0 where
  pub id : ℕ
  pub location_id : ℕ
  pub author_id : Option ℕ
  pub rating : ℕ
  pub body : String
  pub public_author : Bool
  pub state : ReviewState
  pub updated_at : ℕ

pub record ReviewRevision : Type 0 where
  pub review_id : ℕ
  pub rating : ℕ
  pub body : String

-- `parking_photo` and `review_photo`
pub record Photo : Type 0 where
  pub id : ℕ
  pub state : PhotoModerationState
  pub reviewed_by : Option ℕ
  pub reviewed_at : Option ℕ

pub record Contents : Type 0 where
  pub listing : Tables
  pub reviews : List Review
  pub review_revisions : List ReviewRevision
  pub parking_photos : List Photo
  pub review_photos : List Photo

abbrev pub has_review : ℕ → Review → Bool
has_review id r = Review.id r == id

-- The active reviews of a location: how many, and the sum of their stars.
abbrev pub counts_for : ℕ → Review → Bool
counts_for location r = (Review.location_id r == location) && same_state r.state shown

unfoldable pub stars : ℕ → List Review → ℕ
stars location [] = 0
stars location (r ∷ rest) =
    let later = stars location rest in
    if counts_for location r then Review.rating r + later else later

-- `AVG(rating)::numeric(3,2)`, in hundredths, rounded half up; of no review, null.
unfoldable pub average : ℕ → ℕ → Option ℕ
average sum n = if n == 0 then none else some ((200 * sum + n) / (2 * n))

abbrev pub rated : ℕ → List Review → Location → Location
rated location reviews l = record l {
  rating_avg = average (stars location reviews) (count (counts_for location) reviews);
  rating_count = count (counts_for location) reviews;
}

unfoldable pub recompute_rating : ℕ → Contents → Contents
unfolding update_where count stars average
recompute_rating location c = record c {
  listing = record (c.listing) {
    locations =
        update_where (has_location location) (rated location c.reviews)
          (Tables.locations c.listing);
  };
}

-- `set_review_state`; the transaction commits if it changes one review.
abbrev pub is_review_in : ℕ → ReviewState → Review → Bool
is_review_in id from r = (Review.id r == id) && same_state r.state from

unfoldable pub set_review_state :
    ℕ → ℕ → ReviewState → ReviewState → Contents → Result ModerationError Contents
unfolding find update_where count recompute_rating
set_review_state now id from to c = do
  r ← require invalid_state (find (has_review id) c.reviews)
  ensure (count (is_review_in id from) c.reviews == 1) invalid_state
  ok (
      recompute_rating (Review.location_id r) (record c {
        reviews =
            update_where (is_review_in id from) (λ s. record s { state = to; updated_at = now })
              c.reviews;
      }))

unfoldable pub hide_review : ℕ → ℕ → Contents → Result ModerationError Contents
unfolding set_review_state
hide_review now id c = set_review_state now id shown taken_down c

unfoldable pub restore_review : ℕ → ℕ → Contents → Result ModerationError Contents
unfolding set_review_state
restore_review now id c = set_review_state now id taken_down shown c

-- `upsert_review`: one review for a location and an author, whose state an edit does not change. The
-- author's row is read first; `new_id` is what the identity column gives a new review.
abbrev pub is_own : ℕ → ℕ → Review → Bool
is_own location author r =
    (Review.location_id r == location) && elim r.author_id [ none ↦ false | some a ↦ a == author ]

unfoldable pub store_review :
    ℕ → ℕ → ℕ → ℕ → ℕ → String → Bool → List Review → Option Review → List Review × ℕ × Bool
unfolding update_where
store_review now new_id location author rating body public_author reviews (some r) = (
  update_where (is_own location author)
      (λ s. record s { rating = rating; body = body; updated_at = now }) reviews,
  Review.id r,
  true,
)
store_review now new_id location author rating body public_author reviews none = (
  reviews
      ++ (record {
        id = new_id;
        location_id = location;
        author_id = some author;
        rating = rating;
        body = body;
        public_author = public_author;
        state = shown;
        updated_at = now;
      }
          ∷ []),
  new_id,
  false,
)

unfoldable pub write_review :
    ℕ → ℕ → ℕ → ℕ → ℕ → String → Bool → List Review → List Review × ℕ × Bool
unfolding find store_review
write_review now new_id location author rating body public_author reviews =
    store_review now new_id location author rating body public_author reviews
      (find (is_own location author) reviews)

unfoldable pub upsert_review :
    ℕ → ℕ → ℕ → ℕ → ℕ → String → Contents → Result ContributionError (Contents × Bool)
unfolding find write_review recompute_rating
upsert_review now new_id location author rating body c = do
  l ← require not_found (find (has_location location) (Tables.locations c.listing))
  u ← require internal (find (λ v. User.id v == author) (Tables.users c.listing))
  let (reviews, id, was_update) =
      write_review now new_id location author rating body u.public_contribution_name c.reviews
  let c1 = record c {
    reviews = reviews;
    review_revisions = record { review_id = id; rating = rating; body = body } ∷ c.review_revisions;
  }
  ok (recompute_rating location c1, was_update)

-- `PhotoKind`, which names the table of a photo.
pub data PhotoKind : Type 0 where
  of_parking of_review : PhotoKind

abbrev pub photos_of : PhotoKind → Contents → List Photo
photos_of of_parking c = c.parking_photos
photos_of of_review c = c.review_photos

abbrev pub with_photos : PhotoKind → List Photo → Contents → Contents
with_photos of_parking photos c = record c { parking_photos = photos }
with_photos of_review photos c = record c { review_photos = photos }

abbrev pub same_photo_state : PhotoModerationState → PhotoModerationState → Bool
same_photo_state approved approved = true
same_photo_state hidden hidden = true
same_photo_state _ _ = false

abbrev pub is_photo_in : ℕ → PhotoModerationState → Photo → Bool
is_photo_in id from p = (Photo.id p == id) && same_photo_state p.state from

-- One UPDATE, outside a transaction.
unfoldable pub set_photo_state :
    ℕ
    → PhotoKind
    → ℕ
    → ℕ
    → PhotoModerationState
    → PhotoModerationState
    → Contents
    → Contents × Result ModerationError (Unit {0})
unfolding update_where count
set_photo_state now kind id moderator from to c = (
  with_photos kind
      (update_where (is_photo_in id from)
        (λ p. record p { state = to; reviewed_by = some moderator; reviewed_at = some now })
        (photos_of kind c))
      c,
  ensure (count (is_photo_in id from) (photos_of kind c) == 1) invalid_state,
)

unfoldable pub hide_photo :
    ℕ → PhotoKind → ℕ → ℕ → Contents → Contents × Result ModerationError (Unit {0})
unfolding set_photo_state
hide_photo now kind id moderator c = set_photo_state now kind id moderator approved hidden c

unfoldable pub restore_photo :
    ℕ → PhotoKind → ℕ → ℕ → Contents → Contents × Result ModerationError (Unit {0})
unfolding set_photo_state
restore_photo now kind id moderator c = set_photo_state now kind id moderator hidden approved c

-- `target_exists`
unfoldable pub target_exists : ReportTargetType → ℕ → Contents → Bool
target_exists ReportTargetType.parking id c = any (has_location id) (Tables.locations c.listing)
target_exists ReportTargetType.parking_photo id c = any (λ p. Photo.id p == id) c.parking_photos
target_exists ReportTargetType.review id c = any (has_review id) c.reviews
target_exists ReportTargetType.review_photo id c = any (λ p. Photo.id p == id) c.review_photos
