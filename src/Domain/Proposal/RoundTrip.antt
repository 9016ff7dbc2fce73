-- ===== src/Domain/Proposal/RoundTrip.antt =====
-- A payload survives its JSON (crates/domain/src/community.rs).
use bikesnest.Prelude.{
  ℕ, ◌≡◌, refl, arith, String, Bool, true, false, Option, none, some, is_empty, trim, trim-trim,
  Bool-cases, inl, inr,
}
use bikesnest.Prelude.Int.{ℤ}
use bikesnest.Json.{field, object, string, end, get, as_str, and_then}
use bikesnest.Domain.Codes.ProposalKind.{
  ProposalKind, edit_details, move_location, change_existence,
}
use bikesnest.Domain.Parking.{security_feature_codes}
use bikesnest.Domain.ParkingEdit.{TimeText, ParkingEdit, completed, edit_to_json}
use bikesnest.Domain.ParkingEdit.Read.{edit_from_json, read_text}
use bikesnest.Domain.ParkingEdit.RoundTrip.{IsWhole, edit_from_json-edit_to_json}
use bikesnest.Domain.Proposal.{
  ProposedChange, edits, moves, existence, unknown, kind_of, coords_in_range, filled,
  read_existence, read_move, new_payload, with_reason, change_to_json, payload_to_json,
  change_from_json, payload_from_json, move_json, is_finite, existence_code,
}

filled-filled : (o : Option String) → filled (filled o) ≡ filled o
unfolding filled
filled-filled none = refl
filled-filled (some s) = elim (Bool-cases (is_empty (trim s))) [
  | inl e ↦ rw e refl
  | inr e ↦ rw (e, trim-trim s, e) refl
]

module _ (times : TimeText) where
  -- A change that the form accepts: a whole edit, or coordinates on the globe.
  abbrev pub IsReadable : ProposedChange → Type 0
  IsReadable (edits e) = IsWhole times e
  IsReadable (moves lat lon timezone) = coords_in_range lat lon ≡ true
  IsReadable (existence exists) = Unit
  IsReadable unknown = ⊥

  -- The change as it is read back: texts trimmed, a blank timezone left out, and the eight known
  -- security codes.
  abbrev pub normal : ProposedChange → ProposedChange
  normal (edits e) = edits (record e {
    name = trim e.name;
    address = trim e.address;
    security = completed security_feature_codes e.security;
  })
  normal (moves lat lon timezone) = moves lat lon (filled timezone)
  normal c = c

  -- The note beside an edit is not read as a part of it, and is read as it was written.
  edit_from_json-with_reason :
      (reason : Option String) (e : ParkingEdit)
      → edit_from_json times (with_reason reason (edit_to_json times e))
        ≡ edit_from_json times (edit_to_json times e)
  unfolding edit_from_json edit_to_json with_reason read_text
  edit_from_json-with_reason none e = refl
  edit_from_json-with_reason (some reason) e = refl

  get-with_reason :
      (reason : Option String) (c : ProposedChange)
      → and_then (get "reason" (with_reason reason (change_to_json times c))) as_str ≡ reason
  unfolding change_to_json with_reason edit_to_json move_json
  get-with_reason none (edits e) = refl
  get-with_reason (some r) (edits e) = refl
  get-with_reason none (moves lat lon (some tz)) = refl
  get-with_reason none (moves lat lon none) = refl
  get-with_reason (some r) (moves lat lon (some tz)) = refl
  get-with_reason (some r) (moves lat lon none) = refl
  get-with_reason none (existence exists) = refl
  get-with_reason (some r) (existence exists) = refl
  get-with_reason none unknown = refl
  get-with_reason (some r) unknown = refl

  finite_of_range :
      (lat lon : ℕ)
      → coords_in_range lat lon ≡ true
      → (is_finite lat ≡ true) × (is_finite lon ≡ true)
  unfolding coords_in_range
  finite_of_range lat lon h = ground arith

  module _ (f64_of : ℤ → ℕ) where
    read_move-json :
        (lat lon : ℕ) (timezone reason : Option String)
        → coords_in_range lat lon ≡ true
        → change_from_json times f64_of move_location
            (with_reason reason (move_json lat lon timezone))
          ≡ moves lat lon (filled timezone)
    unfolding change_from_json with_reason move_json read_move filled
    read_move-json lat lon (some tz) none h =
        let (a, b) = finite_of_range lat lon h in rw (a, b, h) refl
    read_move-json lat lon none none h = let (a, b) = finite_of_range lat lon h in rw (a, b, h) refl
    read_move-json lat lon (some tz) (some r) h =
        let (a, b) = finite_of_range lat lon h in rw (a, b, h) refl
    read_move-json lat lon none (some r) h =
        let (a, b) = finite_of_range lat lon h in rw (a, b, h) refl

    read_existence-json :
        (exists : Bool) (reason : Option String)
        → change_from_json times f64_of change_existence
            (with_reason reason (object (field "existence" (string (existence_code exists)) end)))
          ≡ existence exists
    unfolding change_from_json with_reason read_existence
    read_existence-json true none = refl
    read_existence-json false none = refl
    read_existence-json true (some r) = refl
    read_existence-json false (some r) = refl

    change_from_json-with_reason :
        (kind : ProposalKind) (c : ProposedChange) (reason : Option String)
        → kind_of c ≡ some kind
        → IsReadable c
        → change_from_json times f64_of kind (with_reason reason (change_to_json times c))
          ≡ normal c
    unfolding change_from_json change_to_json
    change_from_json-with_reason edit_details (edits e) reason k h =
        rw (edit_from_json-with_reason reason e, edit_from_json-edit_to_json times e h) refl
    change_from_json-with_reason move_location (moves lat lon tz) reason k h =
        read_move-json lat lon tz reason h
    change_from_json-with_reason change_existence (existence exists) reason k h =
        read_existence-json exists reason
    change_from_json-with_reason _ _ reason k h = cc

    -- A payload reads back from its JSON as it was written, where its change is one that the form
    -- accepts and the kind of its row is that of the change: an edit with its name and address trimmed
    -- and the eight known security codes, a move with its coordinates and its timezone trimmed, and the
    -- note trimmed, where a blank timezone or note counts as none.
    pub payload_from_json-payload_to_json :
        (kind : ProposalKind) (c : ProposedChange) (reason : Option String)
        → kind_of c ≡ some kind
        → IsReadable c
        → payload_from_json times f64_of kind (payload_to_json times (new_payload c reason))
          ≡ new_payload (normal c) reason
    unfolding payload_from_json payload_to_json new_payload
    payload_from_json-payload_to_json kind c reason k h =
        rw
          (
            change_from_json-with_reason kind c (filled reason) k h,
            get-with_reason (filled reason) c,
            filled-filled reason,
          )
          refl
