-- ===== src/Domain/Freshness/Tests.antt =====
-- Freshness at concrete instants.
use bikesnest.Prelude.{◌≤◌, ◌≡◌, ◌≢◌, refl, none, some, arith, ◌*◌}
use bikesnest.Prelude.Int.{pos, ◌-ℤ◌}
use bikesnest.Domain.Freshness.{
  categorize, default_thresholds, nanos_per_day, fresh, very_stale, never,
}
use bikesnest.Domain.Freshness.Order.{rank, categorize_mono}

boundaries :
    (categorize (some (pos 0)) (pos (29 * nanos_per_day)) default_thresholds ≡ fresh)
    × (categorize (some (pos 0)) (pos (365 * nanos_per_day)) default_thresholds ≡ very_stale)
unfolding categorize ◌-ℤ◌
boundaries = (refl, refl)

categorize_mono_example :
    (rank (categorize (some (pos 0)) (pos 86_400_000_000_000) default_thresholds)
      ≤ rank (categorize (some (pos 0)) (pos 8_640_000_000_000_000) default_thresholds))
    × (categorize (some (pos 0)) (pos 86_400_000_000_000) default_thresholds ≢ never)
    × (categorize none (pos 86_400_000_000_000) default_thresholds ≡ never)
categorize_mono_example =
    categorize_mono (pos 0) (pos 86_400_000_000_000) (pos 8_640_000_000_000_000) default_thresholds
      (omega arith)
