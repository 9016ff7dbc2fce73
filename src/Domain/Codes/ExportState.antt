-- ===== src/Domain/Codes/ExportState.antt =====
-- `ExportState`: the lifecycle of a personal-data export, and its codes (crates/domain/src/privacy.rs).
use bikesnest.Prelude.{
  String, ◌+++◌, Result, ok, err, ◌≡◌, refl, arith, eq_iff, ◌=s=◌, if◌then◌else◌,
}
use bikesnest.Domain.Error.{DomainError, invalid}

pub data ExportState : Type 0 where
  ready downloaded expired : ExportState

unfoldable pub as_code : ExportState → String
as_code ready = "READY"
as_code downloaded = "DOWNLOADED"
as_code expired = "EXPIRED"

unfoldable pub from_code : String → Result DomainError ExportState
from_code code =
    if code =s= "READY"
    then ok ready
    else if code =s= "DOWNLOADED"
    then ok downloaded
    else if code =s= "EXPIRED"
    then ok expired
    else err (invalid ("unknown export state: " +++ code))

pub as_code-of_from_code :
    (code : String) (s : ExportState) → from_code code ≡ ok s → as_code s ≡ code
unfolding as_code from_code
as_code-of_from_code code ready h =
    ground (arith, eq_iff code "READY", eq_iff code "DOWNLOADED", eq_iff code "EXPIRED")
as_code-of_from_code code downloaded h =
    ground (arith, eq_iff code "READY", eq_iff code "DOWNLOADED", eq_iff code "EXPIRED")
as_code-of_from_code code expired h =
    ground (arith, eq_iff code "READY", eq_iff code "DOWNLOADED", eq_iff code "EXPIRED")

pub from_code-as_code : (s : ExportState) → from_code (as_code s) ≡ ok s
unfolding as_code from_code
from_code-as_code ready = refl
from_code-as_code downloaded = refl
from_code-as_code expired = refl
