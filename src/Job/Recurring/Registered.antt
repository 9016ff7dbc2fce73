-- ===== src/Job/Recurring/Registered.antt =====
-- What a registration guarantees.
use bikesnest.Prelude.{
  ℕ, ◌≡◌, refl, ap, String, Bool, true, false, ◌||◌, not, Option, none, some, [], ◌∷◌, ◌++◌, Result,
  ok, err, leb, ◌==◌, ◌=s=◌, eq_iff, if◌then◌else◌, Bool-cases, inl, inr, ==_iff,
}
use bikesnest.Json.{Json}
use bikesnest.Job.Error.{JobError, JobRepoError, invalid_recurring, Interrupted, raised, panics}
use bikesnest.Job.Schedule.{Instant, CronLib, next_run_at}
use bikesnest.Job.Table.{
  JobState, pending, running, succeeded, failed, JobRow, JobTable, is_text, is_terminal,
  update_where, Fault,
}
use bikesnest.Job.Recurring.{
  RecurringRegistrationOutcome, RecurringKind, row_by_key, new_row, repaired, revived, reactivated,
  reconcile_row, Branch, has_schedule, check_row, stable_key, commit_row, insert_or_check,
  of_transaction, register_next, register_recurring,
}

own_key : (key : String) → (key =s= key) ≡ true
own_key key = (eq_iff key key).1 refl

-- The row that a new row's key finds.
row_by_key-append :
    (key : String) (t : JobTable) (r : JobRow)
    → row_by_key key t ≡ none
    → is_text r.idempotency_key key ≡ true
    → row_by_key key (t ++ r ∷ []) ≡ some r
unfolding row_by_key
row_by_key-append key [] r h e = rw e refl
row_by_key-append key (s ∷ t) r h e = elim (Bool-cases (is_text s.idempotency_key key)) [
  | inl f ↦ absurd (cc (rw f at h))
  | inr f ↦ rw f (row_by_key-append key t r (rw f at h) e)
]

abbrev get_or : JobRow → Option JobRow → JobRow
get_or s none = s
get_or s (some r) = r

row_by_key-update :
    (key : String) (set : JobRow → JobRow)
    (keeps : (s : JobRow) → (set s).idempotency_key ≡ s.idempotency_key) (t : JobTable) (r : JobRow)
    → row_by_key key t ≡ some r
    → row_by_key key (update_where (λ s. s.id == r.id) set t) ≡ some (set r)
unfolding row_by_key update_where
row_by_key-update key set keeps [] r h = cc
row_by_key-update key set keeps (s ∷ t) r h = elim (Bool-cases (is_text s.idempotency_key key)) [
  | inl f ↦ here f (ap (get_or s) (rw f at h))
  | inr f ↦ rw (kept (s.id == r.id), f) (row_by_key-update key set keeps t r (rw f at h))
]
  where
    kept : (b : Bool) → (if b then set s else s).idempotency_key ≡ s.idempotency_key
    kept true = keeps s
    kept false = refl

    here :
        is_text s.idempotency_key key ≡ true
        → s ≡ r
        → row_by_key key (update_where (λ s. s.id == r.id) set (s ∷ t)) ≡ some (set r)
    here f same = rw (kept (s.id == r.id), f, same, (==_iff r.id r.id).1 refl) refl

module _ (lib : CronLib) (json_eq : Json → Json → Bool)
    (reflexive : (v : Json) → json_eq v v ≡ true) (k : RecurringKind) (run_at now : Instant) where
  abbrev pub is_scheduled : Option Json → Bool
  is_scheduled none = false
  is_scheduled (some s) = json_eq s k.schedule

  -- The row is of the registered kind and payload, has the registered schedule and has not ended.
  abbrev pub IsRegistered : JobRow → Type 0
  IsRegistered r =
      (r.kind ≡ k.job_kind)
      × (json_eq r.payload k.payload ≡ true)
      × (is_scheduled r.schedule ≡ true)
      × (is_terminal r.state ≡ false)

  -- What a branch does to the row that it is taken for.
  abbrev IsFine : JobRow → Branch lib json_eq k run_at now → Type 0
  IsFine r (err e) = Unit
  IsFine r (ok b) =
      ((s : JobRow) → (b.0 s).idempotency_key ≡ s.idempotency_key) × IsRegistered (b.0 r)

  abbrev pub Registered :
      {E : Type 0} → JobTable → JobTable × Result E RecurringRegistrationOutcome → Type 0
  Registered t (t', err e) = t' ≡ t
  Registered t (t', ok outcome) =
      (r : JobRow) × (row_by_key k.idempotency_key t' ≡ some r) × IsRegistered r

  reconciled :
      (next : Instant) (r : JobRow) (state : JobState) (schedule : Option Json)
      → r.state ≡ state
      → r.schedule ≡ schedule
      → has_schedule lib json_eq k run_at now schedule ≡ true
      → r.kind ≡ k.job_kind
      → json_eq r.payload k.payload ≡ true
      → IsFine r (reconcile_row lib json_eq k run_at now next state schedule)
  unfolding reconcile_row repaired revived reactivated
  reconciled next r running none st sc h kind payload = tt
  reconciled next r running (some s) st sc h kind payload =
      ((λ s. refl), (kind, payload, rw sc h, rw st refl))
  reconciled next r pending (some s) st sc h kind payload =
      ((λ s. refl), (kind, payload, rw sc h, rw st refl))
  reconciled next r pending none st sc h kind payload =
      ((λ s. refl), (kind, payload, reflexive k.schedule, rw st refl))
  reconciled next r failed (some s) st sc h kind payload =
      ((λ s. refl), (kind, payload, rw sc h, refl))
  reconciled next r failed none st sc h kind payload =
      ((λ s. refl), (kind, payload, reflexive k.schedule, refl))
  reconciled next r succeeded schedule st sc h kind payload =
      ((λ s. refl), (kind, payload, reflexive k.schedule, refl))

  checked : (next : Instant) (r : JobRow) → IsFine r (check_row lib json_eq k run_at now next r)
  checked next r =
      unfold check_row in
      go (r.kind =s= k.job_kind) (json_eq r.payload k.payload)
        (has_schedule lib json_eq k run_at now r.schedule) refl refl refl
    where
      go :
          (a b c : Bool)
          → (r.kind =s= k.job_kind) ≡ a
          → json_eq r.payload k.payload ≡ b
          → has_schedule lib json_eq k run_at now r.schedule ≡ c
          → IsFine r (
              if not a || not b
              then err
                  (stable_key lib json_eq k run_at now " belongs to a different kind or payload")
              else if not c
              then err (stable_key lib json_eq k run_at now " has an unexpected schedule")
              else reconcile_row lib json_eq k run_at now next r.state r.schedule)
      go false b c e1 e2 e3 = tt
      go true false c e1 e2 e3 = tt
      go true true false e1 e2 e3 = tt
      go true true true e1 e2 e3 =
          reconciled next r r.state r.schedule refl refl e3 ((eq_iff r.kind k.job_kind).0 e1) e2

  committed :
      (r : JobRow) (b : Branch lib json_eq k run_at now) (t : JobTable)
      → row_by_key k.idempotency_key t ≡ some r
      → IsFine r b
      → Registered t (commit_row lib json_eq k run_at now r b t)
  unfolding commit_row
  committed r (err e) t h fine = refl
  committed r (ok (set, outcome)) t h fine =
      (set r, row_by_key-update k.idempotency_key set fine.0 t r h, fine.1)

  found_or_new :
      (next : Instant) (new_id : ℕ) (found : Option JobRow) (t : JobTable)
      → row_by_key k.idempotency_key t ≡ found
      → Registered t (insert_or_check lib json_eq k run_at now new_id next found t)
  unfolding insert_or_check new_row
  found_or_new next new_id none t h = (
    new_row lib json_eq k run_at now new_id,
    row_by_key-append k.idempotency_key t (new_row lib json_eq k run_at now new_id) h
        (own_key k.idempotency_key),
    (refl, reflexive k.payload, reflexive k.schedule, refl),
  )
  found_or_new next new_id (some r) t h = committed r _ t h (checked next r)

  of_transaction-Registered :
      (t : JobTable) (w : JobTable × Result JobRepoError RecurringRegistrationOutcome)
      → Registered t w
      → Registered t (of_transaction lib json_eq k run_at now w)
  unfolding of_transaction
  of_transaction-Registered t (t', err e) h = h
  of_transaction-Registered t (t', ok outcome) h = h

  next-Registered :
      (fault : Fault) (new_id : ℕ) (next : Result (Interrupted JobError) (Option Instant))
      (t : JobTable)
      → Registered t (register_next lib json_eq k run_at now fault new_id next t)
  unfolding register_next
  next-Registered fault new_id (err panics) t = refl
  next-Registered fault new_id (err (raised e)) t = refl
  next-Registered fault new_id (ok none) t = refl
  next-Registered (some e) new_id (ok (some next)) t = refl
  next-Registered none new_id (ok (some next)) t =
      of_transaction-Registered t _ (found_or_new next new_id _ t refl)

  -- Where equality of JSON values is reflexive, a registration leaves its key with a job that will run: if it reports an outcome, the row of the
  -- key is of the registered kind and payload, has the registered schedule, and is pending or
  -- running, whatever state the row was in before; if it reports an error, or panics, the table is as it was.
  pub register_recurring-registers :
      (fault : Fault) (new_id : ℕ) (t : JobTable)
      → Registered t (register_recurring lib json_eq k run_at now fault new_id t)
  unfolding register_recurring
  register_recurring-registers fault new_id t =
      go ((k.job_kind =s= "") || (k.idempotency_key =s= "") || leb k.max_attempts 0)
    where
      go :
          (b : Bool)
          → Registered t (
              if b
              then (
                t,
                err (
                    raised (
                      invalid_recurring
                        "kind/key must be non-empty and max_attempts must be positive")),
              )
              else register_next lib json_eq k run_at now fault new_id
                  (next_run_at lib (some k.schedule) run_at)
                  t)
      go true = refl
      go false = next-Registered fault new_id _ t
