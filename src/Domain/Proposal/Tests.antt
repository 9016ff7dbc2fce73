-- ===== src/Domain/Proposal/Tests.antt =====
-- Runs of the payload's JSON.
use bikesnest.Prelude.{◌≡◌, refl, true, some, trim}
use bikesnest.Prelude.Int.{pos}
use bikesnest.Json.{boolean, float, int, field, object, end}
use bikesnest.Domain.Codes.ProposalKind.{move_location, change_existence}
use bikesnest.Domain.ParkingEdit.Tests.{tallies}
use bikesnest.Domain.Proposal.{
  moves, existence, unknown, coords_in_range, new_payload, payload_to_json, payload_from_json,
  change_from_json, filled,
}
use bikesnest.Domain.Proposal.RoundTrip.{payload_from_json-payload_to_json}

-- 90 degrees is in the range, the next pattern above it is not, and a NaN is not.
bounds : coords_in_range 0x4056_8000_0000_0000 0xc066_8000_0000_0000 ≡ true
unfolding coords_in_range
bounds = refl

beyond :
    change_from_json tallies
      (λ z. 0)
      move_location
      (object (field "lat" (float 0x4056_8000_0000_0001) (field "lon" (float 0) end)))
    ≡ unknown
unfolding change_from_json
beyond = refl

not_a_number :
    change_from_json tallies
      (λ z. 0)
      move_location
      (object (field "lat" (float 0x7ff8_0000_0000_0000) (field "lon" (int (pos 0)) end)))
    ≡ unknown
unfolding change_from_json
not_a_number = refl

older_shape :
    change_from_json tallies (λ z. 0) change_existence (object (field "exists" (boolean true) end))
    ≡ existence true
unfolding change_from_json
older_shape = refl

payload_from_json-payload_to_json_example :
    payload_from_json tallies
      (λ z. 0)
      move_location
      (payload_to_json tallies (new_payload (moves 0 0 (some " UTC ")) (some " moved ")))
    ≡ new_payload (moves 0 0 (some "UTC")) (some " moved ")
unfolding trim filled coords_in_range
payload_from_json-payload_to_json_example =
    payload_from_json-payload_to_json tallies (λ z. 0) move_location (moves 0 0 (some " UTC "))
      (some " moved ") refl refl
