-- ===== src/Domain/Codes/ParkingType.antt =====
-- `ParkingType`: the types of parking, and its codes (crates/domain/src/parking.rs).
use bikesnest.Prelude.{
  String, ◌+++◌, Result, ok, err, ◌≡◌, refl, arith, eq_iff, ◌=s=◌, if◌then◌else◌,
}
use bikesnest.Domain.Error.{DomainError, invalid}

pub data ParkingType : Type 0 where
  rack parking_facility indoor secured locker other : ParkingType

unfoldable pub as_code : ParkingType → String
as_code rack = "rack"
as_code parking_facility = "parking_facility"
as_code indoor = "indoor"
as_code secured = "secured"
as_code locker = "locker"
as_code other = "other"

unfoldable pub from_code : String → Result DomainError ParkingType
from_code code =
    if code =s= "rack"
    then ok rack
    else if code =s= "parking_facility"
    then ok parking_facility
    else if code =s= "indoor"
    then ok indoor
    else if code =s= "secured"
    then ok secured
    else if code =s= "locker"
    then ok locker
    else if code =s= "other"
    then ok other
    else err (invalid ("unknown parking type: " +++ code))

pub as_code-of_from_code :
    (code : String) (s : ParkingType) → from_code code ≡ ok s → as_code s ≡ code
unfolding as_code from_code
as_code-of_from_code code rack h = ground (
  arith,
  eq_iff code "rack",
  eq_iff code "parking_facility",
  eq_iff code "indoor",
  eq_iff code "secured",
  eq_iff code "locker",
  eq_iff code "other",
)
as_code-of_from_code code parking_facility h = ground (
  arith,
  eq_iff code "rack",
  eq_iff code "parking_facility",
  eq_iff code "indoor",
  eq_iff code "secured",
  eq_iff code "locker",
  eq_iff code "other",
)
as_code-of_from_code code indoor h = ground (
  arith,
  eq_iff code "rack",
  eq_iff code "parking_facility",
  eq_iff code "indoor",
  eq_iff code "secured",
  eq_iff code "locker",
  eq_iff code "other",
)
as_code-of_from_code code secured h = ground (
  arith,
  eq_iff code "rack",
  eq_iff code "parking_facility",
  eq_iff code "indoor",
  eq_iff code "secured",
  eq_iff code "locker",
  eq_iff code "other",
)
as_code-of_from_code code locker h = ground (
  arith,
  eq_iff code "rack",
  eq_iff code "parking_facility",
  eq_iff code "indoor",
  eq_iff code "secured",
  eq_iff code "locker",
  eq_iff code "other",
)
as_code-of_from_code code other h = ground (
  arith,
  eq_iff code "rack",
  eq_iff code "parking_facility",
  eq_iff code "indoor",
  eq_iff code "secured",
  eq_iff code "locker",
  eq_iff code "other",
)

pub from_code-as_code : (s : ParkingType) → from_code (as_code s) ≡ ok s
unfolding as_code from_code
from_code-as_code rack = refl
from_code-as_code parking_facility = refl
from_code-as_code indoor = refl
from_code-as_code secured = refl
from_code-as_code locker = refl
from_code-as_code other = refl
