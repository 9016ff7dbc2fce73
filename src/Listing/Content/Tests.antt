-- ===== src/Listing/Content/Tests.antt =====
-- Reviews of a listing and its rating.
use bikesnest.Prelude.{◌≡◌, refl, false, some, [], ◌∷◌, ok}
use bikesnest.Listing.Rows.{count}
use bikesnest.Listing.Content.{
  Review, shown, taken_down, Contents, stars, average, recompute_rating, set_review_state,
  upsert_review,
}
use bikesnest.Listing.Content.Rated.{IsRated, set_review_state-IsRated, upsert_review-IsRated}
use bikesnest.Listing.Tests.{board, rack}

abbrev praise : Review
praise = record {
  id = 5;
  location_id = 1;
  author_id = some 2;
  rating = 4;
  body = "fine";
  public_author = false;
  state = shown;
  updated_at = 0;
}

abbrev pub contents : Contents
contents = record {
  listing = record board {
    locations = record rack { rating_avg = some 400; rating_count = 1 } ∷ [];
  };
  reviews = praise ∷ [];
  review_revisions = [];
  parking_photos = [];
  review_photos = [];
}

abbrev contents-IsRated : IsRated contents
unfolding count stars average
contents-IsRated = record { unique = (refl, tt); ratings = ((refl, refl), tt) }

-- Four stars and five, and the first of them hidden.
two_thirds : average 14 3 ≡ some 467
unfolding average
two_thirds = refl

abbrev hidden_contents : Contents
hidden_contents =
    recompute_rating 1
      (record contents { reviews = record praise { state = taken_down; updated_at = 100 } ∷ [] })

hides : set_review_state 100 5 shown taken_down contents ≡ ok hidden_contents
unfolding set_review_state
hides = refl

set_review_state-IsRated_example : IsRated hidden_contents
set_review_state-IsRated_example =
    set_review_state-IsRated 100 5 shown taken_down contents hidden_contents contents-IsRated hides

abbrev reviewed_contents : Contents
reviewed_contents = recompute_rating 1 (record contents {
  reviews =
      praise
      ∷ record praise { id = 6; author_id = some 3; rating = 5; body = "good"; updated_at = 100 }
      ∷ [];
  review_revisions = record { review_id = 6; rating = 5; body = "good" } ∷ [];
})

reviews_again : upsert_review 100 6 1 3 5 "good" contents ≡ ok (reviewed_contents, false)
unfolding upsert_review
reviews_again = refl

upsert_review-IsRated_example : IsRated reviewed_contents
upsert_review-IsRated_example =
    upsert_review-IsRated 100 6 1 3 5 "good" contents reviewed_contents false contents-IsRated refl
      reviews_again
