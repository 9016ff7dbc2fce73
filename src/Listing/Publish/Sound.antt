-- ===== src/Listing/Publish/Sound.antt =====
-- What holds of the listings, their revisions and their proposals whenever no transaction is open.
pub mod Written
use bikesnest.Prelude.{
  ℕ, suc, ◌≤◌, ◌≡◌, refl, ap, sym, ◌∙◌, Bool, true, false, none, some, List, [], ◌∷◌, any, ◌==◌,
  if◌then◌else◌, All, Bool-cases, inl, inr, arith, ==_iff,
}
use bikesnest.Listing.{Location, Revision, Proposal, Tables, is_active, is_pending}
use bikesnest.Listing.Rows.{
  find, update_where, find-update_where, All-map, find-All, some_inj, some_not_none, find_passes,
}
use bikesnest.Listing.Publish.{has_location, has_proposal, is_revision}

-- A pending proposal is on an active listing, and was written against a version that it has had.
pub record Backed (ls : List Location) (p : Proposal) : Type 0 where
  pub location : Location
  pub found : find (has_location p.location_id) ls ≡ some location
  pub active : is_active location.moderation_state ≡ true
  pub base : p.base_version ≤ location.version

abbrev pub IsBacked : List Location → Proposal → Type 0
IsBacked ls p = is_pending p.status ≡ true → Backed ls p

-- A revision is of a listing that has come to its version.
pub record Recorded (ls : List Location) (r : Revision) : Type 0 where
  pub location : Location
  pub found : find (has_location r.location_id) ls ≡ some location
  pub past : r.version ≤ location.version

-- Ids are the table's key.
abbrev pub HasUniqueIds : List Location → Type 0
HasUniqueIds [] = Unit
HasUniqueIds (l ∷ ls) = (find (has_location l.id) ls ≡ none) × HasUniqueIds ls

pub record IsSound (t : Tables) : Type 0 where
  pub unique : HasUniqueIds t.locations
  pub pending : All (IsBacked t.locations) t.proposals
  pub recorded : All (Recorded t.locations) t.revisions

found_same :
    (ls : List Location) (a b : ℕ) (l m : Location)
    → find (has_location a) ls ≡ some l
    → find (has_location b) ls ≡ some m
    → (a == b) ≡ true
    → l ≡ m
found_same ls a b l m f g e =
    let same : a ≡ b = (==_iff a b).0 e in some_inj (sym (rw same at f) ∙ g)

pub IsSound_by :
    (t : Tables) (ls : List Location) (rs : List Revision) (ps : List Proposal)
    → t.locations ≡ ls
    → t.revisions ≡ rs
    → t.proposals ≡ ps
    → HasUniqueIds ls
    → All (IsBacked ls) ps
    → All (Recorded ls) rs
    → IsSound t
IsSound_by t ls rs ps el er ep unique backed recorded = record {
  unique = rw el unique;
  pending = rw (el, ep) backed;
  recorded = rw (el, er) recorded;
}

-- The row that a test selects is the row of its id, where ids are unique.
absent :
    (ls : List Location) (q : Location → Bool) (l : Location)
    → find q ls ≡ some l
    → find (has_location l.id) ls ≡ none
    → ⊥
unfolding find
absent [] q l e f = cc
absent (m ∷ ls) q l e f = elim (Bool-cases (q m)) [
  | inl hit ↦
      let same : m ≡ l = some_inj (rw hit at e) in
      let here : m.id == l.id ≡ true = (==_iff m.id l.id).1 (ap Location.id same) in
      some_not_none (rw here at f)
  | inr out ↦ elim (Bool-cases (m.id == l.id)) [
    | inl here ↦ some_not_none (rw here at f)
    | inr there ↦ absent ls q l (rw out at e) (rw there at f)
  ]
]

pub row_of_id :
    (ls : List Location) (q : Location → Bool) (l : Location)
    → HasUniqueIds ls
    → find q ls ≡ some l
    → find (has_location l.id) ls ≡ some l
unfolding find
row_of_id [] q l u e = e
row_of_id (m ∷ ls) q l u e = elim (Bool-cases (q m)) [
  | inl hit ↦
      let same : m ≡ l = some_inj (rw hit at e) in
      let here : m.id == l.id ≡ true = (==_iff m.id l.id).1 (ap Location.id same) in
      rw here (ap some same)
  | inr out ↦ elim (Bool-cases (m.id == l.id)) [
    | inl here ↦ absurd (
        absent ls q l (rw out at e)
          (ap (λ k. find (has_location k) ls) (sym ((==_iff m.id l.id).0 here)) ∙ u.0))
    | inr there ↦ rw there (row_of_id ls q l u.1 (rw out at e))
  ]
]

-- The listing of a pending proposal is active, and is found by its own id.
pub listing_of_pending :
    (t : Tables) (id : ℕ) (p : Proposal) (l : Location)
    → IsSound t
    → find (has_proposal id) t.proposals ≡ some p
    → find (has_location p.location_id) t.locations ≡ some l
    → is_pending p.status ≡ true
    → is_active l.moderation_state ≡ true
listing_of_pending t id p l sound fp fl waits =
    let (backed, named) =
      find-All (IsBacked t.locations) (has_proposal id) t.proposals p fp sound.pending in
    let b : Backed t.locations p = backed waits in
    let same : b.location ≡ l = some_inj (sym b.found ∙ fl) in
    ap (λ m. is_active (Location.moderation_state m)) (sym same) ∙ b.active

pub found_by_id :
    (ls : List Location) (k : ℕ) (l : Location)
    → find (has_location k) ls ≡ some l
    → find (has_location l.id) ls ≡ some l
found_by_id ls k l f =
    let e : l.id ≡ k = (==_iff l.id k).0 (find_passes (has_location k) ls l f) in
    ap (λ i. find (has_location i) ls) e ∙ f

-- The next version of a listing has no revision yet.
not_next :
    (ls : List Location) (r : Revision) (l : Location)
    → find (has_location l.id) ls ≡ some l
    → Recorded ls r
    → is_revision l.id (suc l.version) r ≡ false
not_next ls r l f h = elim (Bool-cases (r.location_id == l.id)) [
  | inl e ↦
      let same : h.location ≡ l = found_same ls r.location_id l.id h.location l h.found f e in
      let past : r.version ≤ l.version = rw (← same) h.past in rw e (ground (arith, past))
  | inr e ↦ rw e refl
]

pub next_version-free :
    (ls : List Location) (rs : List Revision) (l : Location)
    → find (has_location l.id) ls ≡ some l
    → All (Recorded ls) rs
    → any (is_revision l.id (suc l.version)) rs ≡ false
next_version-free ls [] l f h = refl
next_version-free ls (r ∷ rs) l f h =
    rw (not_next ls r l f h.0, next_version-free ls rs l f h.1) refl
