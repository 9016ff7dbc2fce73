-- ===== src/Job/Schedule/Next.antt =====
-- A next run lies in the future, and only a job without a schedule has none.
use bikesnest.Prelude.{
  ◌<◌, ◌≡◌, ◌↔◌, ◌⊎◌, inl, inr, refl, sym, ap, String, true, Option, none, some, Result, ok, err,
  arith, ◌+◌, ◌*◌, leb, ◌==◌, Bool-cases, Option-cases,
}
use mathlib.Core.Path.{subst}
use bikesnest.Prelude.Int.{ℤ, pos, negsuc}
use bikesnest.Json.{Json, null, get, is_null, is_object, as_i64, as_str, and_then}
use bikesnest.Job.Error.{JobError, Interrupted}
use bikesnest.Job.Schedule.{
  Instant, CronLib, cron_tick, cron_next, every_next, field_next, normalize_cron, next_run_at,
}

module _ (lib : CronLib) where
  open lib use {CronSchedule, from_str, after, after_later, latest}

  -- What a call answers: a run after `now`, no run, or an error.
  data IsLater (now : Instant) : Result (Interrupted JobError) (Option Instant) → Type 0 where
    run : (t : Instant) → now < t → IsLater now (ok (some t))
    refused : (e : Interrupted JobError) → IsLater now (err e)

  every_next-IsLater : (secs : ℤ) (now : Instant) → IsLater now (every_next lib secs now)
  unfolding every_next
  every_next-IsLater (pos n) now = elim (Bool-cases (n == 0)) [
    | inl z ↦ rw z (refused _)
    | inr p ↦ elim (Bool-cases (leb (now + n * 1_000_000) latest)) [
      | inl e ↦ rw (p, e) (run _ (ground arith))
      | inr o ↦ rw (p, o) (refused _)
    ]
  ]
  every_next-IsLater (negsuc n) now = refused _

  cron_next-IsLater :
      (expr : String) (now : Instant) (parsed : Result String CronSchedule)
      → IsLater now (cron_next lib expr now parsed)
  unfolding cron_next
  cron_next-IsLater expr now (err e) = refused _
  cron_next-IsLater expr now (ok s) = elim (Option-cases (after s now)) [
    | inl n ↦ rw (n, cron_tick) (refused _)
    | inr (t, tick) ↦ rw (tick, cron_tick) (run t (after_later s now t tick))
  ]

  field_next-IsLater :
      (s : Json) (now : Instant) (secs : Option ℤ) (cron : Option String)
      → IsLater now (field_next lib s now secs cron)
  unfolding field_next
  field_next-IsLater s now (some secs) cron = every_next-IsLater secs now
  field_next-IsLater s now none (some expr) =
      cron_next-IsLater expr now (from_str (normalize_cron expr))
  field_next-IsLater s now none none = refused _

  IsLater-ok :
      {now t : Instant} {r : Result (Interrupted JobError) (Option Instant)}
      → IsLater now r
      → r ≡ ok (some t)
      → now < t
  IsLater-ok (run u h) e = ground arith
  IsLater-ok (refused x) e = cc

  IsLater-ne-none :
      {now : Instant} {r : Result (Interrupted JobError) (Option Instant)}
      → IsLater now r
      → r ≡ ok none
      → ⊥
  IsLater-ne-none (run u h) e = cc
  IsLater-ne-none (refused x) e = cc

  -- A next run is later than `now`.
  pub next_run_at-later :
      (schedule : Option Json) (now t : Instant)
      → next_run_at lib schedule now ≡ ok (some t)
      → now < t
  unfolding next_run_at
  next_run_at-later none now t h = cc
  next_run_at-later (some s) now t h = elim (Bool-cases (is_null s)) [
    | inl isnull ↦ ground arith
    | inr other ↦ elim (Bool-cases (is_object s)) [
      | inl obj ↦
          IsLater-ok
            (field_next-IsLater s now (and_then (get "every_seconds" s) as_i64)
              (and_then (get "cron" s) as_str))
            (rw (other, obj) at h)
      | inr bad ↦ ground arith
    ]
  ]

  eq-null : (s : Json) → is_null s ≡ true → s ≡ null
  eq-null null h = refl
  eq-null _ h = cc

  -- A job has no next run exactly when it has no schedule, or the JSON `null` for one. For every
  -- other schedule `next_run_at` gives a run, or fails.
  pub next_run_at-none_iff :
      (schedule : Option Json) (now : Instant)
      → (next_run_at lib schedule now ≡ ok none) ↔ ((schedule ≡ none) ⊎ (schedule ≡ some null))
  unfolding next_run_at
  next_run_at-none_iff none now = (λ h. inl refl, λ h. refl)
  next_run_at-none_iff (some s) now = (
    to,
    λ h. elim h [
      | inl e ↦ cc
      | inr e ↦
          subst (λ (j : Json). next_run_at lib (some j) now ≡ ok none) (sym (injective s e)) refl
    ],
  )
    where
      injective : (a : Json) → some a ≡ some null → a ≡ null
      injective a e = cc

      to :
          next_run_at lib (some s) now ≡ ok none
          → (◌≡◌ {A = Option Json} (some s) none) ⊎ (some s ≡ some null)
      to h = elim (Bool-cases (is_null s)) [
        | inl isnull ↦ inr (ap some (eq-null s isnull))
        | inr other ↦ elim (Bool-cases (is_object s)) [
          | inl obj ↦ absurd (
              IsLater-ne-none
                (field_next-IsLater s now (and_then (get "every_seconds" s) as_i64)
                  (and_then (get "cron" s) as_str))
                (rw (other, obj) at h))
          | inr bad ↦ absurd (ground arith)
        ]
      ]
