-- ===== src/Listing/Content/Rated.antt =====
-- The rating of every listing is that of its active reviews
-- (`recompute_rating`, crates/infrastructure/src/community/review.rs).
use mathlib.Core.Path.{subst}
use bikesnest.Prelude.{
  ℕ, ◌≡◌, refl, ap, sym, ◌∙◌, String, Bool, true, false, ◌&&◌, Option, none, some, List, [], ◌∷◌,
  ◌++◌, ok, any, ◌==◌, All, Bool-cases, inl, inr, arith, ==_iff,
}
use bikesnest.Listing.{Location, Tables, User, required, ensured, ok_inj}
use bikesnest.Listing.Rows.{find, update_where, count, All-update_where, some_inj}
use bikesnest.Listing.Publish.{has_location}
use bikesnest.Listing.Content.{
  Review, ReviewState, Contents, has_review, counts_for, stars, average, rated, recompute_rating,
  is_review_in, set_review_state, is_own, store_review, write_review, upsert_review,
}

abbrev pub IsRatedBy : List Review → Location → Type 0
IsRatedBy reviews l =
    (l.rating_count ≡ count (counts_for l.id) reviews)
    × (l.rating_avg ≡ average (stars l.id reviews) (count (counts_for l.id) reviews))

abbrev pub HasUniqueReviews : List Review → Type 0
HasUniqueReviews [] = Unit
HasUniqueReviews (r ∷ rest) = (any (has_review (Review.id r)) rest ≡ false) × HasUniqueReviews rest

pub record IsRated (c : Contents) : Type 0 where
  pub unique : HasUniqueReviews c.reviews
  pub ratings : All (IsRatedBy c.reviews) (Tables.locations c.listing)

-- Two lists of reviews that agree on a location.
abbrev pub Agree : List Review → List Review → ℕ → Type 0
Agree xs ys k = (count (counts_for k) xs ≡ count (counts_for k) ys) × (stars k xs ≡ stars k ys)

-- A change of reviews of one location, with its rating computed anew.
recompute-ratings :
    (k : ℕ) (xs ys : List Review) (ls : List Location)
    → ((j : ℕ) → (j == k) ≡ false → Agree ys xs j)
    → All (IsRatedBy xs) ls
    → All (IsRatedBy ys) (update_where (has_location k) (rated k ys) ls)
recompute-ratings k xs ys ls agree h =
    All-update_where (has_location k) (rated k ys) ls
      (λ l old here. let same : l.id ≡ k = (==_iff l.id k).0 here in rw same (refl, refl))
      (λ l old there. let (n, s) = agree l.id there in rw (n, s) old) h

-- An update of reviews of one location, which keeps their location.
update-Agree :
    (k : ℕ) (q : Review → Bool) (set : Review → Review) (xs : List Review)
    → ((r : Review) → (set r).location_id ≡ r.location_id)
    → All (λ r. q r ≡ true → (Review.location_id r == k) ≡ true) xs
    → (j : ℕ) → (j == k) ≡ false
    → Agree (update_where q set xs) xs j
unfolding update_where count stars
update-Agree k q set [] keeps local j other = (refl, refl)
update-Agree k q set (r ∷ xs) keeps local j other =
    let (n, s) = update-Agree k q set xs keeps local.1 j other in
    elim (Bool-cases (q r)) [
      | inl hit ↦
          let away : (Review.location_id r == j) ≡ false =
            elsewhere (Review.location_id r) j k (local.0 hit) other in
          rw (hit, keeps r, away, n, s) (refl, refl)
      | inr out ↦ rw (out, n, s) (refl, refl)
    ]
  where
    elsewhere : (x y z : ℕ) → (x == z) ≡ true → (y == z) ≡ false → (x == y) ≡ false
    elsewhere x y z e o = ground (arith, e, o)

absent-local :
    (id k : ℕ) (from : ReviewState) (xs : List Review)
    → any (has_review id) xs ≡ false
    → All (λ r. is_review_in id from r ≡ true → (Review.location_id r == k) ≡ true) xs
absent-local id k from [] h = tt
absent-local id k from (x ∷ xs) h = elim (Bool-cases (has_review id x)) [
  | inl e ↦ absurd (cc (rw e at h))
  | inr e ↦ ((λ hit. absurd (cc (rw e at hit))), absent-local id k from xs (rw e at h))
]

-- The rows of an id are one row.
found-local :
    (id : ℕ) (from : ReviewState) (xs : List Review) (r : Review)
    → HasUniqueReviews xs
    → find (has_review id) xs ≡ some r
    → All (λ s. is_review_in id from s ≡ true → (Review.location_id s == r.location_id) ≡ true) xs
unfolding find
found-local id from [] r u f = tt
found-local id from (x ∷ xs) r u f = elim (Bool-cases (has_review id x)) [
  | inl e ↦
      let same : x ≡ r = some_inj (rw e at f) in
      let key : x.id ≡ id = (==_iff x.id id).0 e in
      (
        (λ hit. (==_iff x.location_id r.location_id).1 (ap Review.location_id same)),
        absent-local id r.location_id from xs (ap (λ i. any (has_review i) xs) (sym key) ∙ u.0),
      )
  | inr e ↦ ((λ hit. absurd (cc (rw e at hit))), found-local id from xs r u.1 (rw e at f))
]

any-update :
    (q : Review → Bool) (set : Review → Review) (xs : List Review) (i : ℕ)
    → ((r : Review) → (set r).id ≡ r.id)
    → any (has_review i) (update_where q set xs) ≡ any (has_review i) xs
unfolding update_where
any-update q set [] i keeps = refl
any-update q set (x ∷ xs) i keeps = elim (Bool-cases (q x)) [
  | inl e ↦ rw (e, keeps x, any-update q set xs i keeps) refl
  | inr e ↦ rw (e, any-update q set xs i keeps) refl
]

update-HasUniqueReviews :
    (q : Review → Bool) (set : Review → Review) (xs : List Review)
    → ((r : Review) → (set r).id ≡ r.id)
    → HasUniqueReviews xs
    → HasUniqueReviews (update_where q set xs)
unfolding update_where
update-HasUniqueReviews q set [] keeps h = tt
update-HasUniqueReviews q set (x ∷ xs) keeps h = elim (Bool-cases (q x)) [
  | inl e ↦
      rw (e, keeps x)
        (any-update q set xs x.id keeps ∙ h.0, update-HasUniqueReviews q set xs keeps h.1)
  | inr e ↦ rw e (any-update q set xs x.id keeps ∙ h.0, update-HasUniqueReviews q set xs keeps h.1)
]

recompute-IsRated :
    (k : ℕ) (xs : List Review) (c : Contents)
    → HasUniqueReviews c.reviews
    → ((j : ℕ) → (j == k) ≡ false → Agree c.reviews xs j)
    → All (IsRatedBy xs) (Tables.locations c.listing)
    → IsRated (recompute_rating k c)
unfolding recompute_rating
recompute-IsRated k xs c unique agree h = record {
  unique = unique;
  ratings = recompute-ratings k xs c.reviews (Tables.locations c.listing) agree h;
}

-- Hiding a review and restoring one, where it goes through, keeps the rating of every listing that of
-- its active reviews.
pub set_review_state-IsRated :
    (now id : ℕ) (from to : ReviewState) (c after : Contents)
    → IsRated c
    → set_review_state now id from to c ≡ ok after
    → IsRated after
unfolding set_review_state
set_review_state-IsRated now id from to c after h e =
    required _ (find (has_review id) c.reviews) _ after e λ r found e1.
      ensured (count (is_review_in id from) c.reviews == 1) _ _ after e1 λ one e2.
        subst IsRated (ok_inj e2) (
          recompute-IsRated r.location_id c.reviews _
            (update-HasUniqueReviews (is_review_in id from) _ c.reviews (λ s. refl) h.unique)
            (update-Agree r.location_id (is_review_in id from) _ c.reviews (λ s. refl)
              (found-local id from c.reviews r h.unique found))
            h.ratings)

append-Agree :
    (xs : List Review) (y : Review) (j : ℕ) → counts_for j y ≡ false → Agree (xs ++ (y ∷ [])) xs j
unfolding count stars
append-Agree [] y j out = rw out (refl, refl)
append-Agree (x ∷ xs) y j out =
    let (n, s) = append-Agree xs y j out in
    elim (Bool-cases (counts_for j x)) [
      | inl e ↦ rw (e, n, s) (refl, refl)
      | inr e ↦ rw (e, n, s) (refl, refl)
    ]

any-append :
    (xs : List Review) (y : Review) (i : ℕ)
    → any (has_review i) xs ≡ false
    → (y.id == i) ≡ false
    → any (has_review i) (xs ++ (y ∷ [])) ≡ false
any-append [] y i h o = rw o refl
any-append (x ∷ xs) y i h o = elim (Bool-cases (has_review i x)) [
  | inl e ↦ absurd (cc (rw e at h))
  | inr e ↦ rw e (any-append xs y i (rw e at h) o)
]

append-HasUniqueReviews :
    (xs : List Review) (y : Review)
    → HasUniqueReviews xs
    → any (has_review y.id) xs ≡ false
    → HasUniqueReviews (xs ++ (y ∷ []))
append-HasUniqueReviews [] y u fresh = (refl, tt)
append-HasUniqueReviews (x ∷ xs) y u fresh = elim (Bool-cases (has_review y.id x)) [
  | inl e ↦ absurd (cc (rw e at fresh))
  | inr e ↦ (
    any-append xs y x.id u.0 (ground (arith, e)),
    append-HasUniqueReviews xs y u.1 (rw e at fresh),
  )
]

own-local :
    (location author : ℕ) (xs : List Review)
    → All (λ r. is_own location author r ≡ true → (Review.location_id r == location) ≡ true) xs
own-local location author [] = tt
own-local location author (x ∷ xs) =
    (first (x.location_id == location) _, own-local location author xs)
  where
    first : (a b : Bool) → a && b ≡ true → a ≡ true
    first true b e = refl
    first false b e = e

store_review-keeps :
    (now new_id location author rating : ℕ) (body : String) (public_author : Bool)
    (reviews : List Review) (o : Option Review)
    → HasUniqueReviews reviews
    → any (has_review new_id) reviews ≡ false
    → let w = store_review now new_id location author rating body public_author reviews o in
      HasUniqueReviews w.0 × ((j : ℕ) → (j == location) ≡ false → Agree w.0 reviews j)
unfolding store_review
store_review-keeps now new_id location author rating body public_author reviews none u fresh =
    (append-HasUniqueReviews reviews _ u fresh, λ j other. append-Agree reviews _ j (away j other))
  where
    away : (j : ℕ) → (j == location) ≡ false → (location == j) && true ≡ false
    away j other = ground (arith, other)
store_review-keeps now new_id location author rating body public_author reviews (some r) u fresh = (
  update-HasUniqueReviews (is_own location author) _ reviews (λ s. refl) u,
  update-Agree location (is_own location author) _ reviews (λ s. refl)
      (own-local location author reviews),
)

-- Writing a review, the first of its author or a change of it, keeps the rating of every listing that of
-- its active reviews, where the id that a new review gets is new.
pub upsert_review-IsRated :
    (now new_id location author rating : ℕ) (body : String) (c after : Contents) (was_update : Bool)
    → IsRated c
    → any (has_review new_id) c.reviews ≡ false
    → upsert_review now new_id location author rating body c ≡ ok (after, was_update)
    → IsRated after
unfolding upsert_review write_review
upsert_review-IsRated now new_id location author rating body c after was_update h fresh e =
    required _ (find (has_location location) (Tables.locations c.listing)) _ (after, was_update) e
      λ l found e1.
        required _ (find (λ v. User.id v == author) (Tables.users c.listing)) _ (after, was_update)
          e1
          λ u listed e2.
            let (unique, agree) =
              store_review-keeps now new_id location author rating body u.public_contribution_name
                c.reviews (find (is_own location author) c.reviews) h.unique fresh in
            subst IsRated (ap (λ x. x.0) (ok_inj e2))
              (recompute-IsRated location c.reviews _ unique agree h.ratings)
