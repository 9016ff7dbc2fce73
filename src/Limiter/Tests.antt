-- ===== src/Limiter/Tests.antt =====
-- The theorems at concrete limiters.
use bikesnest.Prelude.{
  ℕ, ◌-◌, ◌≤◌, ◌<◌, ◌≡◌, refl, true, false, List, [], ◌∷◌, ◌++◌, ok, arith, length, ltb,
  if◌then◌else◌, All, keep,
}
use bikesnest.Limiter.{
  InMemoryRateLimiter, max_buckets, check, record_event, make_room, contains_key, trim_events,
  lookup_or, fresh_bucket,
}
use bikesnest.Limiter.Check.{bucket_of, check_decides, refused-window_full}
use bikesnest.Limiter.Bound.{length-check}

-- Two admissions of "a", at 5 and 6.
abbrev used_limiter : InMemoryRateLimiter
used_limiter = record {
  buckets = record {
    map = ("a", record { events = 5 ∷ 6 ∷ []; last_seen = 6; window = 10 }) ∷ [];
    since_sweep = 1;
  };
  poisoned = false;
}

refused_at_seven : (check used_limiter 7 "a" 2 10).1 ≡ ok false
unfolding check record_event trim_events lookup_or make_room contains_key
refused_at_seven = refl

admitted_later : (check used_limiter 15 "a" 2 10).1 ≡ ok true
unfolding check record_event trim_events lookup_or make_room contains_key
admitted_later = refl

check_decides_example :
    let recent = keep (λ e. ltb (15 - e) 10) (bucket_of used_limiter 15 "a" 2 10).events in
    ((check used_limiter 15 "a" 2 10).1 ≡ ok (ltb (length recent) 2))
    × ((lookup_or "a" (fresh_bucket 15 10) (check used_limiter 15 "a" 2 10).0.buckets.map).events
        ≡ (if ltb (length recent) 2 then recent ++ 15 ∷ [] else recent))
check_decides_example =
    check_decides used_limiter 15 "a" 2 10 0 refl
      (unfold lookup_or in (omega arith, (omega arith, tt)))

refused-window_full_example :
    (recent : List ℕ) × (dropped : List ℕ) × ((bucket_of used_limiter 7 "a" 2 10).events
      ≡ dropped ++ recent)
    × (2 ≤ length recent)
    × All (λ e. 7 - e < 10) recent
refused-window_full_example =
    refused-window_full used_limiter 7 "a" 2 10 0
      (unfold lookup_or in (omega arith, (omega arith, tt))) refused_at_seven

length-check_example : length (check used_limiter 7 "a" 2 10).0.buckets.map ≤ max_buckets
length-check_example = length-check used_limiter 7 "a" 2 10 (omega arith)
