-- ===== src/Domain/Proposal.antt =====
-- What a proposal asks for, and its stored JSON: `ProposedChange` and `ProposalPayload`
-- (crates/domain/src/community.rs). A float is its 64-bit pattern; Rust's conversion of an integer to
-- a float is a parameter.
pub mod RoundTrip
mod Tests
use bikesnest.Prelude.{
  ℕ, ◌%◌, ◌^◌, String, Bool, true, false, ◌&&◌, not, Option, none, some, leb, ltb, ◌=s=◌,
  if◌then◌else◌, is_empty, trim,
}
use bikesnest.Prelude.Int.{ℤ}
use bikesnest.Json.{
  Json, Fields, null, boolean, int, float, string, object, field, end, get, as_str, as_bool,
  and_then,
}
use bikesnest.Domain.Codes.ProposalKind.{
  ProposalKind, edit_details, move_location, change_existence,
}
use bikesnest.Domain.ParkingEdit.{TimeText, ParkingEdit, edit_to_json}
use bikesnest.Domain.ParkingEdit.Read.{edit_from_json}

pub data ProposedChange : Type 0 where
  edits : ParkingEdit → ProposedChange
  moves : (lat lon : ℕ) → Option String → ProposedChange
  existence : Bool → ProposedChange
  unknown : ProposedChange

abbrev pub kind_of : ProposedChange → Option ProposalKind
kind_of (edits e) = some edit_details
kind_of (moves lat lon timezone) = some move_location
kind_of (existence exists) = some change_existence
kind_of unknown = none

-- The magnitude of a float: its pattern without the sign. Magnitudes are ordered as the numbers are,
-- and the infinities and the NaNs stand above all finite ones.
abbrev pub magnitude : ℕ → ℕ
magnitude p = p % 2 ^ 63

abbrev pub is_finite : ℕ → Bool
is_finite p = ltb (magnitude p) 0x7ff0_0000_0000_0000

-- `(-90.0..=90.0).contains(&lat)` and `(-180.0..=180.0).contains(&lon)`, with the patterns of 90 and 180
abbrev pub is_latitude : ℕ → Bool
is_latitude p = leb (magnitude p) 0x4056_8000_0000_0000

abbrev pub is_longitude : ℕ → Bool
is_longitude p = leb (magnitude p) 0x4066_8000_0000_0000

unfoldable pub coords_in_range : ℕ → ℕ → Bool
coords_in_range lat lon = is_finite lat && is_finite lon && is_latitude lat && is_longitude lon

-- `.map(str::trim).filter(|s| !s.is_empty())`
unfoldable pub filled : Option String → Option String
filled none = none
filled (some s) = if is_empty (trim s) then none else some (trim s)

-- `json!` of a float: what is not finite is null.
abbrev pub number_json : ℕ → Json
number_json p = if is_finite p then float p else null

abbrev pub existence_code : Bool → String
existence_code true = "exists"
existence_code false = "removed"

abbrev pub exists_or_unknown : Option Bool → ProposedChange
exists_or_unknown none = unknown
exists_or_unknown (some b) = existence b

-- The change of an `existence` text, and of the older `exists`.
unfoldable pub read_existence : Option String → Option Bool → ProposedChange
read_existence (some code) flag =
    if code =s= "exists"
    then existence true
    else if code =s= "removed"
    then existence false
    else unknown
read_existence none flag = exists_or_unknown flag

unfoldable pub read_move : Option ℕ → Option ℕ → Option String → ProposedChange
unfolding coords_in_range filled
read_move (some lat) (some lon) timezone =
    if coords_in_range lat lon then moves lat lon (filled timezone) else unknown
read_move _ _ timezone = unknown

abbrev pub edits_or_unknown : Option ParkingEdit → ProposedChange
edits_or_unknown none = unknown
edits_or_unknown (some e) = edits e

unfoldable pub move_json : ℕ → ℕ → Option String → Json
move_json lat lon (some tz) = object (
    field "lat" (number_json lat)
      (field "lon" (number_json lon) (field "timezone" (string tz) end)))
move_json lat lon none = object (field "lat" (number_json lat) (field "lon" (number_json lon) end))

-- `Map::insert`
abbrev pub insert : String → Json → Fields → Fields
insert key v end = field key v end
insert key v (field k old rest) =
    let later = insert key v rest in if k =s= key then field k v rest else field k old later

pub record ProposalPayload : Type 0 where
  pub change : ProposedChange
  pub reason : Option String

unfoldable pub new_payload : ProposedChange → Option String → ProposalPayload
unfolding filled
new_payload change reason = record { change = change; reason = filled reason }

unfoldable pub with_reason : Option String → Json → Json
with_reason (some reason) (object fields) = object (insert "reason" (string reason) fields)
with_reason _ v = v

module _ (times : TimeText) where
  unfoldable pub change_to_json : ProposedChange → Json
  unfolding edit_to_json move_json
  change_to_json (edits e) = edit_to_json times e
  change_to_json (moves lat lon timezone) = move_json lat lon timezone
  change_to_json (existence exists) =
      object (field "existence" (string (existence_code exists)) end)
  change_to_json unknown = object end

  unfoldable pub payload_to_json : ProposalPayload → Json
  unfolding change_to_json with_reason
  payload_to_json p = with_reason p.reason (change_to_json p.change)

  module _ (f64_of : ℤ → ℕ) where
    -- `v.as_f64()`
    abbrev pub as_f64 : Json → Option ℕ
    as_f64 (float p) = some p
    as_f64 (int z) = some (f64_of z)
    as_f64 _ = none

    unfoldable pub change_from_json : ProposalKind → Json → ProposedChange
    unfolding edit_from_json read_move read_existence
    change_from_json edit_details raw = edits_or_unknown (edit_from_json times raw)
    change_from_json move_location raw =
        read_move (and_then (get "lat" raw) as_f64) (and_then (get "lon" raw) as_f64)
          (and_then (get "timezone" raw) as_str)
    change_from_json change_existence raw =
        read_existence (and_then (get "existence" raw) as_str) (and_then (get "exists" raw) as_bool)

    unfoldable pub payload_from_json : ProposalKind → Json → ProposalPayload
    unfolding change_from_json new_payload
    payload_from_json kind raw =
        new_payload (change_from_json kind raw) (and_then (get "reason" raw) as_str)
