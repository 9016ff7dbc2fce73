-- ===== src/Job/Outcome/Enqueue.antt =====
-- Enqueueing with an idempotency key.
use bikesnest.Prelude.{
  ℕ, ◌≡◌, refl, String, Bool, true, Option, none, some, [], ◌∷◌, ◌++◌, ok, arith, eq_iff, any,
  Bool-cases, inl, inr,
}
use bikesnest.Json.{Json}
use bikesnest.Job.Schedule.{Instant}
use bikesnest.Job.Table.{JobRow, JobTable, is_text}
use bikesnest.Job.Outcome.{enqueue, new_job, has_key}

any-append :
    (p : JobRow → Bool) (t : JobTable) (r : JobRow) → p r ≡ true → any p (t ++ r ∷ []) ≡ true
any-append p [] r h = rw h refl
any-append p (s ∷ t) r h = rw (any-append p t r h) (ground arith)

-- Once a job has been enqueued with a key, or refused because the key was there, a second job with
-- that key is not enqueued: the table is as the first one left it, and the answer is no id.
pub enqueue-once :
    (now now' run_at run_at' : Instant) (t : JobTable) (id id' : ℕ) (kind kind' key : String)
    (payload payload' : Json) (budget budget' : Option ℕ)
    → let first : JobTable = (enqueue none now t id kind payload run_at budget (some key)).0 in
      enqueue none now' first id' kind' payload' run_at' budget' (some key) ≡ (first, ok none)
unfolding enqueue
enqueue-once now now' run_at run_at' t id id' kind kind' key payload payload' budget budget' =
    elim (Bool-cases (has_key (some key) t)) [
      | inl e ↦ rw (e, e) refl
      | inr e ↦
          rw
            (
              e,
              any-append (λ r. is_text r.idempotency_key key) t
                  (new_job now id kind payload run_at budget (some key)) own,
            )
            refl
    ]
  where
    own : is_text (new_job now id kind payload run_at budget (some key)).idempotency_key key ≡ true
    own = unfold new_job in (eq_iff key key).1 refl
