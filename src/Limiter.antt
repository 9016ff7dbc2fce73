-- ===== src/Limiter.antt =====
-- The in-memory rate limiter (crates/infrastructure/src/auth/rate_limit.rs).
-- An `Instant` and a `Duration` are nanoseconds; `duration_since` stops at 0, as `-` does. The hash
-- map is an association list in the order in which the map would be iterated. A poisoned mutex is
-- a field of the state.
pub mod Window
pub mod Bound
pub mod Check
mod Tests
use bikesnest.Prelude.{
  ℕ, suc, ◌+◌, ◌-◌, ◌/◌, String, Bool, true, false, ◌||◌, not, List, [], ◌∷◌, ◌++◌, map, Result, ok,
  err, ltb, leb, ◌=s=◌, if◌then◌else◌, length, any, keep, take,
}

abbrev pub max_buckets : ℕ
max_buckets = 100_000

abbrev pub sweep_every_new_keys : ℕ
sweep_every_new_keys = 512

pub record Bucket : Type 0 where
  pub events : List ℕ
  pub last_seen : ℕ
  pub window : ℕ

pub record Buckets : Type 0 where
  pub map : List (String × Bucket)
  pub since_sweep : ℕ

pub data RateLimitError : Type 0 where
  unavailable : RateLimitError
  unexpected : String → RateLimitError

pub record InMemoryRateLimiter : Type 0 where
  pub buckets : Buckets
  pub poisoned : Bool

unfoldable pub contains_key : String → List (String × Bucket) → Bool
contains_key key entries = any (λ e. e.0 =s= key) entries

-- `map.remove(&key)`
unfoldable pub remove : String → List (String × Bucket) → List (String × Bucket)
remove key entries = keep (λ e. not (e.0 =s= key)) entries

-- `map.entry(key).or_insert_with(…)`, and the write through the reference that it gives.
unfoldable pub upsert :
    String → Bucket → (Bucket → Bucket) → List (String × Bucket) → List (String × Bucket)
upsert key fresh write [] = (key, write fresh) ∷ []
upsert key fresh write ((k, b) ∷ rest) =
    if k =s= key then (k, write b) ∷ rest else (k, b) ∷ upsert key fresh write rest

unfoldable pub lookup_or : String → Bucket → List (String × Bucket) → Bucket
lookup_or key fresh [] = fresh
lookup_or key fresh ((k, b) ∷ rest) = if k =s= key then b else lookup_or key fresh rest

-- `sort_unstable_by_key`, by insertion: oldest first.
unfoldable pub insert_by_age : ℕ × String → List (ℕ × String) → List (ℕ × String)
insert_by_age a [] = a ∷ []
insert_by_age a (b ∷ rest) = if leb a.0 b.0 then a ∷ b ∷ rest else b ∷ insert_by_age a rest

unfoldable pub sort_by_age : List (ℕ × String) → List (ℕ × String)
unfolding insert_by_age
sort_by_age [] = []
sort_by_age (a ∷ rest) = insert_by_age a (sort_by_age rest)

unfoldable pub remove_keys : List (ℕ × String) → List (String × Bucket) → List (String × Bucket)
remove_keys [] entries = entries
remove_keys (a ∷ rest) entries = remove_keys rest (remove a.1 entries)

unfoldable pub is_live : ℕ → String × Bucket → Bool
is_live now e = ltb (now - e.1.last_seen) e.1.window

unfoldable pub sweep : Buckets → ℕ → Buckets
sweep buckets now =
    let retained = keep (is_live now) buckets.map in
    let target : ℕ = max_buckets - max_buckets / 10 in
    let excess = length retained - target in
    let ages =
      map (λ (e : String × Bucket). let a : ℕ × String = (e.1.last_seen, e.0) in a) retained in
    if ltb (length retained) max_buckets
    then record { map = retained; since_sweep = 0 }
    else record { map = remove_keys (take excess (sort_by_age ages)) retained; since_sweep = 0 }

-- The part of `check` before the bucket is read: only a new key can grow the map.
unfoldable pub make_room : Buckets → String → ℕ → Buckets
make_room buckets key now =
    let counted = record buckets { since_sweep = buckets.since_sweep + 1 } in
    if contains_key key buckets.map
    then buckets
    else if leb sweep_every_new_keys counted.since_sweep || leb max_buckets (length buckets.map)
    then sweep counted now
    else counted

-- The loop that drops the events that have fallen outside the window.
unfoldable pub trim_events : ℕ → ℕ → List ℕ → List ℕ
trim_events now window [] = []
trim_events now window (front ∷ rest) =
    let trimmed = trim_events now window rest in
    if leb window (now - front) then trimmed else front ∷ rest

unfoldable pub fresh_bucket : ℕ → ℕ → Bucket
fresh_bucket now window = record { events = []; last_seen = now; window = window }

-- The part of `check` that works on the bucket of the key.
unfoldable pub record_event : ℕ → ℕ → ℕ → Bucket → Bucket × Bool
record_event now limit window bucket =
    let events = trim_events now window bucket.events in
    if leb limit (length events)
    then (record { events = events; last_seen = now; window = window }, false)
    else (record { events = events ++ now ∷ []; last_seen = now; window = window }, true)

unfoldable pub check :
    InMemoryRateLimiter → ℕ → String → ℕ → ℕ → InMemoryRateLimiter × Result RateLimitError Bool
check limiter now key limit window =
    let buckets = make_room limiter.buckets key now in
    let fresh = fresh_bucket now window in
    let allowed = (record_event now limit window (lookup_or key fresh buckets.map)).1 in
    let entries = upsert key fresh (λ b. (record_event now limit window b).0) buckets.map in
    if limiter.poisoned
    then (limiter, err unavailable)
    else (record limiter { buckets = record buckets { map = entries } }, ok allowed)
