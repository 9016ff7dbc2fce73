-- ===== src/Listing/Publish/Sound/Written.antt =====
-- What holds of the listings after an UPDATE of one listing that bumps its version.
use bikesnest.Prelude.{
  ℕ, suc, ◌≤◌, ◌≡◌, refl, ap, ◌∙◌, Bool, true, false, none, some, List, [], ◌∷◌, ◌==◌,
  if◌then◌else◌, All, Bool-cases, inl, inr, arith,
}
use bikesnest.Listing.{Location, Revision, Proposal, is_active, is_pending}
use bikesnest.Listing.Rows.{find, update_where, find-update_where, All-map, find_passes}
use bikesnest.Listing.Publish.{has_location}
use bikesnest.Listing.Publish.Sound.{Backed, IsBacked, Recorded, HasUniqueIds}

-- An update that bumps the version of a listing that is found, and of no listing with another id.
module _ (set : Location → Location) (set_id : (l : Location) → (set l).id ≡ l.id)
    (set_version : (l : Location) → (set l).version ≡ suc l.version) (target : Location → Bool)
    (id : ℕ) (narrow : (l : Location) → target l ≡ true → has_location id l ≡ true)
    (ls : List Location) where
  abbrev pub written : List Location
  written = update_where target set ls

  pub find-written :
      (k : ℕ) (l : Location)
      → find (has_location k) ls ≡ some l
      → find (has_location k) written ≡ some (if target l then set l else l)
  find-written k l f =
      rw (find-update_where (has_location k) target set ls (λ r. ap (λ i. i == k) (set_id r)), f)
        refl

  none-written :
      (k : ℕ) (ms : List Location)
      → find (has_location k) ms ≡ none
      → find (has_location k) (update_where target set ms) ≡ none
  none-written k ms f =
      rw (find-update_where (has_location k) target set ms (λ r. ap (λ i. i == k) (set_id r)), f)
        refl

  pub HasUniqueIds-written :
      (ms : List Location) → HasUniqueIds ms → HasUniqueIds (update_where target set ms)
  unfolding update_where
  HasUniqueIds-written [] h = tt
  HasUniqueIds-written (m ∷ ms) h = elim (Bool-cases (target m)) [
    | inl hit ↦ rw (hit, set_id m) (none-written m.id ms h.0, HasUniqueIds-written ms h.1)
    | inr out ↦ rw out (none-written m.id ms h.0, HasUniqueIds-written ms h.1)
  ]

  version-grows : (b : Bool) (l : Location) → l.version ≤ Location.version (if b then set l else l)
  version-grows true l = rw (set_version l) (omega arith)
  version-grows false l = omega arith

  Recorded-written : (r : Revision) → Recorded ls r → Recorded written r
  Recorded-written r h = record {
    location = if target h.location then set h.location else h.location;
    found = find-written r.location_id h.location h.found;
    past = omega (arith, h.past, version-grows (target h.location) h.location);
  }

  Backed-written : (p : Proposal) → (p.location_id == id) ≡ false → Backed ls p → Backed written p
  Backed-written p other h = record {
    location = h.location;
    found =
        find-written p.location_id h.location h.found
        ∙ ap (λ b. some (if b then set h.location else h.location)) untouched;
    active = h.active;
    base = h.base;
  }
    where
      untouched : target h.location ≡ false
      untouched = elim (Bool-cases (target h.location)) [
        | inl hit ↦ absurd (
            ground (
              arith,
              narrow h.location hit,
              find_passes (has_location p.location_id) ls h.location h.found,
            ))
        | inr out ↦ out
      ]

  -- Where the update keeps the state of a listing, what was known of its proposals still is.
  pub Backed-kept :
      ((l : Location) → (set l).moderation_state ≡ l.moderation_state)
      → (p : Proposal) → IsBacked ls p
      → IsBacked written p
  Backed-kept keeps p f waits = record {
    location = if target h.location then set h.location else h.location;
    found = find-written p.location_id h.location h.found;
    active = same_state (target h.location) h.location ∙ h.active;
    base = omega (arith, h.base, version-grows (target h.location) h.location);
  }
    where
      h : Backed ls p
      h = f waits

      same_state :
          (b : Bool) (l : Location)
          → is_active (Location.moderation_state (if b then set l else l))
            ≡ is_active l.moderation_state
      same_state true l = ap is_active (keeps l)
      same_state false l = refl

  -- The update, with the revision of the new version, keeps what holds, where no proposal that is
  -- pending afterwards is one of the listing.
  module _ (l : Location) (found : find (has_location id) ls ≡ some l) (hit : target l ≡ true)
      (r : Revision) (of_listing : r.location_id ≡ id)
      (of_version : r.version ≡ suc l.version) where
    Recorded-new : Recorded written r
    Recorded-new = record {
      location = set l;
      found = rw of_listing (find-written id l found ∙ ap (λ b. some (if b then set l else l)) hit);
      past = rw (of_version, set_version l) (omega arith);
    }

    pub All-Recorded-written :
        (rs : List Revision) → All (Recorded ls) rs → All (Recorded written) (r ∷ rs)
    All-Recorded-written rs h = (Recorded-new, All-map rs Recorded-written h)

    pub All-Backed-written :
        (ps : List Proposal)
        → All (λ p. is_pending p.status ≡ true → ((p.location_id == id) ≡ false) × Backed ls p) ps
        → All (IsBacked written) ps
    All-Backed-written ps h = All-map ps (λ p f waits. Backed-written p (f waits).0 (f waits).1) h
