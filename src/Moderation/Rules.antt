-- ===== src/Moderation/Rules.antt =====
-- Which reasons a report may give, and its description (crates/domain/src/moderation.rs).
use bikesnest.Prelude.{
  ℕ, String, ◌+++◌, Bool, true, false, Option, none, some, List, [], ◌∷◌, Result, ok, err, any, ltb,
  ◌=s=◌, if◌then◌else◌, is_empty, char_count, trim, show_ℕ,
}
use bikesnest.Domain.Error.{DomainError, invalid}
use bikesnest.Domain.Codes.ReportTargetType.{
  ReportTargetType, parking, parking_photo, review, review_photo,
}

abbrev pub report_reasons : List String
report_reasons =
    "nonexistent_parking" ∷ "incorrect_location" ∷ "incorrect_price" ∷ "incorrect_hours"
    ∷ "incorrect_security" ∷ "duplicate" ∷ "inappropriate_photo" ∷ "inappropriate_review" ∷ "spam"
    ∷ "abuse" ∷ "other" ∷ []

unfoldable pub is_known_report_reason : String → Bool
is_known_report_reason code = any (λ r. r =s= code) report_reasons

abbrev pub is_photo : ReportTargetType → Bool
is_photo parking_photo = true
is_photo review_photo = true
is_photo _ = false

abbrev pub is_review : ReportTargetType → Bool
is_review review = true
is_review review_photo = true
is_review _ = false

abbrev pub is_parking : ReportTargetType → Bool
is_parking parking = true
is_parking _ = false

unfoldable pub reason_allowed_for : ReportTargetType → String → Bool
reason_allowed_for target reason =
    if reason =s= "inappropriate_photo"
    then is_photo target
    else if reason =s= "inappropriate_review"
    then is_review target
    else if reason =s= "duplicate"
    then is_parking target
    else true

unfoldable pub new_with_len : String → ℕ → Result DomainError String
new_with_len raw max_len =
    let trimmed = trim raw in
    let len = char_count trimmed in
    if ltb max_len len
    then err (
        invalid (
          "report description must be at most "
          +++ (show_ℕ max_len +++ (" characters: " +++ show_ℕ len))))
    else ok trimmed

-- The optional field of the form: whitespace counts as nothing.
unfoldable pub description_of : Option String → ℕ → Result DomainError String
unfolding new_with_len
description_of none max_len = new_with_len "" max_len
description_of (some raw) max_len =
    if is_empty (trim raw) then new_with_len "" max_len else new_with_len raw max_len
