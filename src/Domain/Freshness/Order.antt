-- ===== src/Domain/Freshness/Order.antt =====
-- Freshness never improves with time, and its boundaries.
use bikesnest.Prelude.{ℕ, ◌≤◌, ◌≡◌, ◌≢◌, refl, none, ◌/◌, some, arith, ap}
use bikesnest.Prelude.Int.{ℤ, pos, negsuc, ◌-ℤ◌, ◌≤ℤ◌, -ℤ_parts, pos_part}
use bikesnest.Domain.Freshness.{
  DateTime, nanos_per_day, num_days, at_least_zero, FreshnessThresholds, FreshnessCategory, fresh,
  recently_verified, aging, stale, very_stale, never, category_of_days, categorize,
}

-- From the best to the worst.
abbrev pub rank : FreshnessCategory → ℕ
rank fresh = 0
rank recently_verified = 1
rank aging = 2
rank stale = 3
rank very_stale = 4
rank never = 5

category_of_days_mono :
    (t : FreshnessThresholds) (d e : ℤ)
    → d ≤ℤ e
    → rank (category_of_days d t) ≤ rank (category_of_days e t)
unfolding category_of_days
category_of_days_mono t d e h = ground arith

div_mono : (n m : ℕ) → n ≤ m → n / nanos_per_day ≤ m / nanos_per_day
div_mono n m h = omega arith

-- The days of an age are the whole days since the verification, and 0 for one in the future.
days_of_age : (d : ℤ) → at_least_zero (num_days d) ≡ pos (pos_part d / nanos_per_day)
unfolding at_least_zero num_days
days_of_age (pos n) = refl
days_of_age (negsuc n) = ground arith

-- What a category is not.
category_of_days-ne-never : (t : FreshnessThresholds) (d : ℤ) → category_of_days d t ≢ never
unfolding category_of_days
category_of_days-ne-never t d = ground arith

pub categorize-some :
    (verified now : DateTime) (t : FreshnessThresholds)
    → categorize (some verified) now t
      ≡ category_of_days (pos (pos_part (now -ℤ verified) / nanos_per_day)) t
unfolding categorize
categorize-some verified now t =
    ap (λ (d : ℤ). category_of_days d t) (days_of_age (now -ℤ verified))

-- A verification never looks fresher later: as `now` grows, the category does not improve, whatever
-- the thresholds. A location that was never verified is `never` at all times, and no other is.
pub categorize_mono :
    (verified now later : DateTime) (t : FreshnessThresholds)
    → now ≤ℤ later
    → (rank (categorize (some verified) now t) ≤ rank (categorize (some verified) later t))
      × (categorize (some verified) now t ≢ never)
      × (categorize none now t ≡ never)
categorize_mono verified now later t le =
    let older : pos_part (now -ℤ verified) ≤ pos_part (later -ℤ verified) =
      ground (arith, -ℤ_parts now verified, -ℤ_parts later verified) in
    (
      rw (categorize-some verified now t, categorize-some verified later t)
          (category_of_days_mono t _ _ (omega (arith, div_mono _ _ older))),
      rw (categorize-some verified now t) (category_of_days-ne-never t _),
      unfold categorize in refl,
    )
