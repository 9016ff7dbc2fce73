-- ===== src/Domain/Community/Tests.antt =====
-- Confidence at concrete signals.
use mathlib.Core.List.{Permᴰ}
use bikesnest.Prelude.{◌≡◌, ◌↔◌, refl, true, false, [], ◌∷◌, any}
use bikesnest.Prelude.Int.{pos, ◌-ℤ◌}
use bikesnest.Domain.Codes.ExistenceResult.{still_exists, no_longer_exists}
use bikesnest.Domain.Codes.Confidence.{reported, conflicting, recently_verified}
use bikesnest.Domain.Freshness.{default_thresholds, categorize}
use bikesnest.Domain.Community.{ExistenceSignal, is_gone, is_positive, confidence}
use bikesnest.Domain.Community.Signals.{confidence-perm, confidence_iff}

abbrev seen : ExistenceSignal
seen = record { user = pos 1; result = still_exists; at = pos 0 }

abbrev seen_later : ExistenceSignal
seen_later = record { user = pos 2; result = still_exists; at = pos 34_560_000_000_000_000 }

abbrev gone : ExistenceSignal
gone = record { user = pos 3; result = no_longer_exists; at = pos 1 }

latest_counts :
    confidence (seen ∷ seen_later ∷ []) (pos 34_560_000_000_000_000) default_thresholds
    ≡ recently_verified
unfolding confidence categorize ◌-ℤ◌
latest_counts = refl

confidence-perm_example :
    confidence (seen ∷ gone ∷ []) (pos 0) default_thresholds
    ≡ confidence (gone ∷ seen ∷ []) (pos 0) default_thresholds
confidence-perm_example =
    confidence-perm (seen ∷ gone ∷ []) (gone ∷ seen ∷ []) (pos 0) default_thresholds
      ∣ Permᴰ.swap refl refl ∣₁

confidence_iff_example :
    ((confidence (seen ∷ gone ∷ []) (pos 0) default_thresholds ≡ conflicting)
      ↔ (any is_gone (seen ∷ gone ∷ []) ≡ true))
    × ((confidence (seen ∷ gone ∷ []) (pos 0) default_thresholds ≡ reported)
        ↔ ((any is_gone (seen ∷ gone ∷ []) ≡ false) × (any is_positive (seen ∷ gone ∷ []) ≡ false)))
confidence_iff_example = confidence_iff (seen ∷ gone ∷ []) (pos 0) default_thresholds
