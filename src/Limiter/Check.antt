-- ===== src/Limiter/Check.antt =====
-- What a whole `check` decides and writes, whatever the sweep does to the other buckets.
use bikesnest.Prelude.{
  ℕ, ◌+◌, ◌-◌, ◌≤◌, ◌<◌, String, ◌≡◌, refl, sym, ap, ◌∙◌, inl, inr, Bool, false, ◌||◌, not, List,
  [], ◌∷◌, ◌++◌, ok, arith, leb, ltb, ◌=s=◌, if◌then◌else◌, Bool-cases, length, keep, All, eq_refl,
}
use bikesnest.Limiter.{
  Bucket, Buckets, InMemoryRateLimiter, max_buckets, sweep_every_new_keys, contains_key, remove,
  upsert, lookup_or, remove_keys, is_live, sweep, make_room, trim_events, fresh_bucket,
  record_event, check,
}
use bikesnest.Limiter.Window.{
  IsAscending, trim_events_split, trim_events-recent, trim_events-inside,
}

module _ (key : String) where
  contains_key-keep :
      (p : String × Bucket → Bool) (m : List (String × Bucket))
      → contains_key key m ≡ false
      → contains_key key (keep p m) ≡ false
  unfolding contains_key
  contains_key-keep p [] h = refl
  contains_key-keep p (e ∷ m) h = ground (arith, contains_key-keep p m)

  contains_key-remove_keys :
      (ks : List (ℕ × String)) (m : List (String × Bucket))
      → contains_key key m ≡ false
      → contains_key key (remove_keys ks m) ≡ false
  unfolding remove_keys remove
  contains_key-remove_keys [] m h = h
  contains_key-remove_keys (k ∷ ks) m h =
      contains_key-remove_keys ks (remove k.1 m) (contains_key-keep (λ e. not (e.0 =s= k.1)) m h)

  contains_key-sweep :
      (b : Buckets) (now : ℕ)
      → contains_key key b.map ≡ false
      → contains_key key (sweep b now).map ≡ false
  unfolding sweep
  contains_key-sweep b now h =
      elim (Bool-cases (ltb (length (keep (is_live now) b.map)) max_buckets)) [
        | inl below ↦ rw below (contains_key-keep (is_live now) b.map h)
        | inr over ↦
            rw over (contains_key-remove_keys _ _ (contains_key-keep (is_live now) b.map h))
      ]

  lookup_or-absent :
      (fresh : Bucket) (m : List (String × Bucket))
      → contains_key key m ≡ false
      → lookup_or key fresh m ≡ fresh
  unfolding contains_key lookup_or
  lookup_or-absent fresh [] h = refl
  lookup_or-absent fresh (e ∷ m) h = ground (arith, lookup_or-absent fresh m)

  lookup_or-upsert_self :
      (fresh : Bucket) (write : Bucket → Bucket) (m : List (String × Bucket))
      → lookup_or key fresh (upsert key fresh write m) ≡ write (lookup_or key fresh m)
  unfolding upsert lookup_or
  lookup_or-upsert_self fresh write [] = rw eq_refl refl
  lookup_or-upsert_self fresh write (e ∷ m) = ground (arith, lookup_or-upsert_self fresh write m)

  -- Making room never touches the bucket of the key that is checked.
  pub lookup_or-make_room :
      (fresh : Bucket) (b : Buckets) (now : ℕ)
      → lookup_or key fresh (make_room b key now).map ≡ lookup_or key fresh b.map
  unfolding make_room
  lookup_or-make_room fresh b now = elim (Bool-cases (contains_key key b.map)) [
    | inl old ↦ rw old refl
    | inr new ↦
        let counted = record b { since_sweep = b.since_sweep + 1 } in
        let before = lookup_or-absent fresh b.map new in
        elim (Bool-cases
          (leb sweep_every_new_keys (b.since_sweep + 1) || leb max_buckets (length b.map))) [
            | inl full ↦
                rw (new, full)
                  (lookup_or-absent fresh (sweep counted now).map
                      (contains_key-sweep counted now new)
                    ∙ sym before)
            | inr room ↦ rw (new, room) refl
          ]
  ]

module _ (l : InMemoryRateLimiter) (now : ℕ) (key : String) (limit window : ℕ) where
  -- The bucket of the key, as `or_insert_with` gives it.
  abbrev pub bucket_of : Bucket
  bucket_of = lookup_or key (fresh_bucket now window) l.buckets.map

  check-eq :
      l.poisoned ≡ false
      → ((check l now key limit window).1 ≡ ok (record_event now limit window bucket_of).1)
        × (lookup_or key (fresh_bucket now window) (check l now key limit window).0.buckets.map
            ≡ (record_event now limit window bucket_of).0)
  unfolding check
  check-eq sound =
      let same = lookup_or-make_room key (fresh_bucket now window) l.buckets now in
      let entries = (make_room l.buckets key now).map in
      rw (sound, lookup_or-upsert_self, same) (refl, refl)

check-trimmed :
    (l : InMemoryRateLimiter) (now : ℕ) (key : String) (limit window : ℕ)
    → l.poisoned ≡ false
    → let kept = trim_events now window (bucket_of l now key limit window).events in
      ((check l now key limit window).1 ≡ ok (ltb (length kept) limit))
      × ((lookup_or key
            (fresh_bucket now window)
            (check l now key limit window).0.buckets.map).events
          ≡ (if ltb (length kept) limit then kept ++ now ∷ [] else kept))
unfolding record_event
check-trimmed l now key limit window sound =
    let (result, bucket) = check-eq l now key limit window sound in
    let events = ap (λ (b : Bucket). b.events) bucket in
    (rw result (ground arith), rw events (ground arith))

-- If the mutex is sound and the events of the key's bucket ascend, a check is decided by that
-- bucket alone: it is admitted exactly when fewer than `limit` of the events are less than a window
-- old. What the map then holds for the key is those events, and on an admission the present instant
-- after them.
pub check_decides :
    (l : InMemoryRateLimiter) (now : ℕ) (key : String) (limit window lo : ℕ)
    → l.poisoned ≡ false
    → IsAscending lo (bucket_of l now key limit window).events
    → let recent = keep (λ e. ltb (now - e) window) (bucket_of l now key limit window).events in
      ((check l now key limit window).1 ≡ ok (ltb (length recent) limit))
      × ((lookup_or key
            (fresh_bucket now window)
            (check l now key limit window).0.buckets.map).events
          ≡ (if ltb (length recent) limit then recent ++ now ∷ [] else recent))
check_decides l now key limit window lo sound asc =
    rw (← trim_events-inside now window lo (bucket_of l now key limit window).events asc)
      (check-trimmed l now key limit window sound)

sound_of_ok :
    (l : InMemoryRateLimiter) (now : ℕ) (key : String) (limit window : ℕ) (b : Bool)
    → (check l now key limit window).1 ≡ ok b
    → l.poisoned ≡ false
unfolding check
sound_of_ok l now key limit window b h = elim (Bool-cases l.poisoned) [
  | inl bad ↦ ground arith
  | inr sound ↦ sound
]

-- No false refusal: if the events of the key's bucket ascend, a refused check means that the bucket
-- held at least `limit` events less than a window old.
pub refused-window_full :
    (l : InMemoryRateLimiter) (now : ℕ) (key : String) (limit window lo : ℕ)
    → IsAscending lo (bucket_of l now key limit window).events
    → (check l now key limit window).1 ≡ ok false
    → (recent : List ℕ) × (dropped : List ℕ) × ((bucket_of l now key limit window).events
        ≡ dropped ++ recent)
      × (limit ≤ length recent)
      × All (λ e. now - e < window) recent
refused-window_full l now key limit window lo asc refused =
    let events = (bucket_of l now key limit window).events in
    let decided =
      (check-trimmed l now key limit window (sound_of_ok l now key limit window false refused)).0 in
    let (dropped, split, aged) = trim_events_split now window events in
    (
      trim_events now window events,
      dropped,
      split,
      ground arith,
      trim_events-recent now window lo events asc,
    )
