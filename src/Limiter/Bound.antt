-- ===== src/Limiter/Bound.antt =====
-- The map never holds more than `max_buckets` buckets.
use bikesnest.Prelude.{
  ℕ, suc, zero, ◌+◌, ◌-◌, ◌/◌, ◌≤◌, ◌<◌, String, ◌≡◌, refl, ◌⊎◌, inl, inr, true, ◌||◌, not, List,
  [], ◌∷◌, map, arith, leb, ltb, ◌=s=◌, Bool-cases, length, length-keep, keep, take, All, eq_refl,
}
use bikesnest.Limiter.{
  Bucket, Buckets, InMemoryRateLimiter, max_buckets, sweep_every_new_keys, contains_key, remove,
  upsert, insert_by_age, sort_by_age, remove_keys, is_live, sweep, make_room, fresh_bucket,
  record_event, check,
}

length-remove : (key : String) (m : List (String × Bucket)) → length (remove key m) ≤ length m
unfolding remove
length-remove key m = length-keep (λ e. not (e.0 =s= key)) m

length-remove_present :
    (key : String) (m : List (String × Bucket))
    → contains_key key m ≡ true
    → length (remove key m) < length m
unfolding remove contains_key
length-remove_present key [] h = cc
length-remove_present key (e ∷ m) h =
    ground (arith, length-remove_present key m, length-keep (λ e. not (e.0 =s= key)) m)

length-remove_keys :
    (ks : List (ℕ × String)) (m : List (String × Bucket)) → length (remove_keys ks m) ≤ length m
unfolding remove_keys
length-remove_keys [] m = omega arith
length-remove_keys (k ∷ ks) m =
    omega (arith, length-remove k.1 m, length-remove_keys ks (remove k.1 m))

abbrev Present : List (String × Bucket) → ℕ × String → Type 0
Present m a = contains_key a.1 m ≡ true

abbrev age_of : String × Bucket → ℕ × String
age_of e = (e.1.last_seen, e.0)

Present-cons :
    (e : String × Bucket) (m : List (String × Bucket)) (ages : List (ℕ × String))
    → All (Present m) ages
    → All (Present (e ∷ m)) ages
unfolding contains_key
Present-cons e m [] h = tt
Present-cons e m (a ∷ ages) h = (ground (arith, h.0), Present-cons e m ages h.1)

ages-Present : (m : List (String × Bucket)) → All (Present m) (map age_of m)
unfolding contains_key
ages-Present [] = tt
ages-Present (e ∷ m) = (rw eq_refl refl, Present-cons e m (map age_of m) (ages-Present m))

insert-Present :
    (m : List (String × Bucket)) (a : ℕ × String) (ages : List (ℕ × String))
    → Present m a
    → All (Present m) ages
    → All (Present m) (insert_by_age a ages)
unfolding insert_by_age
insert-Present m a [] h hs = (h, tt)
insert-Present m a (b ∷ ages) h hs = elim (Bool-cases (leb a.0 b.0)) [
  | inl le ↦ rw le (h, hs)
  | inr gt ↦ rw gt (hs.0, insert-Present m a ages h hs.1)
]

sort-Present :
    (m : List (String × Bucket)) (ages : List (ℕ × String))
    → All (Present m) ages
    → All (Present m) (sort_by_age ages)
unfolding sort_by_age
sort-Present m [] h = tt
sort-Present m (a ∷ ages) h = insert-Present m a (sort_by_age ages) h.0 (sort-Present m ages h.1)

length-insert_by_age :
    (a : ℕ × String) (ages : List (ℕ × String)) → length (insert_by_age a ages) ≡ length ages + 1
unfolding insert_by_age
length-insert_by_age a [] = omega arith
length-insert_by_age a (b ∷ ages) = ground (arith, length-insert_by_age a ages)

length-sort_by_age : (ages : List (ℕ × String)) → length (sort_by_age ages) ≡ length ages
unfolding sort_by_age
length-sort_by_age [] = refl
length-sort_by_age (a ∷ ages) =
    omega (arith, length-insert_by_age a (sort_by_age ages), length-sort_by_age ages)

length-map_age : (m : List (String × Bucket)) → length (map age_of m) ≡ length m
length-map_age [] = refl
length-map_age (e ∷ m) = omega (arith, length-map_age m)

-- Removing the first of some keys, the first of which is there, makes the map smaller.
remove_some :
    (n : ℕ) (ages : List (ℕ × String)) (m : List (String × Bucket))
    → 0 < n
    → 0 < length ages
    → All (Present m) ages
    → length (remove_keys (take n ages) m) < length m
unfolding remove_keys
remove_some zero ages m h k p = absurd (omega arith)
remove_some (suc n) [] m h k p = absurd (omega arith)
remove_some (suc n) (a ∷ ages) m h k p =
    omega (arith, length-remove_present a.1 m p.0, length-remove_keys (take n ages) (remove a.1 m))

length-sweep :
    (b : Buckets) (now : ℕ) → length b.map ≤ max_buckets → length (sweep b now).map < max_buckets
unfolding sweep
length-sweep b now h =
    let kept = keep (is_live now) b.map in
    elim (Bool-cases (ltb (length kept) max_buckets)) [
      | inl below ↦ rw below (ground arith)
      | inr over ↦
          let smaller =
            remove_some (length kept - (max_buckets - max_buckets / 10))
              (sort_by_age (map age_of kept)) kept (ground arith)
              (ground (arith, length-sort_by_age (map age_of kept), length-map_age kept))
              (sort-Present kept (map age_of kept) (ages-Present kept)) in
          rw over (omega (arith, smaller, length-keep (is_live now) b.map))
    ]

length-make_room :
    (b : Buckets) (key : String) (now : ℕ)
    → length b.map ≤ max_buckets
    → (length (make_room b key now).map < max_buckets)
      ⊎ ((contains_key key b.map ≡ true) × (make_room b key now ≡ b))
unfolding make_room
length-make_room b key now h = elim (Bool-cases (contains_key key b.map)) [
  | inl old ↦ inr (old, rw old refl)
  | inr new ↦
      let counted = record b { since_sweep = b.since_sweep + 1 } in
      elim (Bool-cases
        (leb sweep_every_new_keys (b.since_sweep + 1) || leb max_buckets (length b.map))) [
          | inl full ↦ inl (rw (new, full) (length-sweep counted now h))
          | inr room ↦ inl (rw (new, room) (ground arith))
        ]
]

length-upsert_present :
    (key : String) (fresh : Bucket) (write : Bucket → Bucket) (m : List (String × Bucket))
    → contains_key key m ≡ true
    → length (upsert key fresh write m) ≡ length m
unfolding upsert contains_key
length-upsert_present key fresh write [] h = cc
length-upsert_present key fresh write (e ∷ m) h =
    ground (arith, length-upsert_present key fresh write m)

length-upsert :
    (key : String) (fresh : Bucket) (write : Bucket → Bucket) (m : List (String × Bucket))
    → length (upsert key fresh write m) ≤ length m + 1
unfolding upsert
length-upsert key fresh write [] = omega arith
length-upsert key fresh write (e ∷ m) = ground (arith, length-upsert key fresh write m)

-- From a map of at most `max_buckets` buckets, any check, of any key at any time, leaves one.
pub length-check :
    (l : InMemoryRateLimiter) (now : ℕ) (key : String) (limit window : ℕ)
    → length l.buckets.map ≤ max_buckets
    → length (check l now key limit window).0.buckets.map ≤ max_buckets
unfolding check
length-check l now key limit window h = elim (Bool-cases l.poisoned) [
  | inl bad ↦ rw bad h
  | inr sound ↦
      let room = (make_room l.buckets key now).map in
      let write : Bucket → Bucket = λ b. (record_event now limit window b).0 in
      rw sound (elim (length-make_room l.buckets key now h) [
        | inl small ↦ omega (arith, length-upsert key (fresh_bucket now window) write room)
        | inr (there, same) ↦ rw same (
            omega (
              arith,
              length-upsert_present key (fresh_bucket now window) write l.buckets.map there,
            ))
      ])
]
