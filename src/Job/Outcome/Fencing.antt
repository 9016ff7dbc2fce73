-- ===== src/Job/Outcome/Fencing.antt =====
-- Only the holder of a live claim can write the outcome of a job.
use bikesnest.Prelude.{
  ℕ, ◌≡◌, refl, String, Bool, false, ◌&&◌, Option, none, some, [], ◌∷◌, err, arith, any,
}
use bikesnest.Job.Error.{lost_ownership}
use bikesnest.Job.Schedule.{Instant}
use bikesnest.Job.Table.{JobRow, JobTable, is_held}
use bikesnest.Job.Table.Laws.{owner_write-lost}
use bikesnest.Job.Outcome.{
  heartbeat, finish_success, retry, reschedule_after_failure, fail, is_some,
}

any-weaker :
    (p q : JobRow → Bool) (t : JobTable) → any p t ≡ false → any (λ r. p r && q r) t ≡ false
any-weaker p q [] h = refl
any-weaker p q (r ∷ t) h = ground (arith, any-weaker p q t)

-- A worker that holds no live claim on a job, because the claim ran out, was taken over by another
-- or never was, has each of its writes refused: the table is as it was, and the answer is
-- `lost_ownership`.
pub not_held-fenced :
    (t : JobTable) (id : ℕ) (worker_id error : String) (now at : Instant) (ttl : ℕ)
    (next : Option Instant)
    → any (is_held id worker_id now) t ≡ false
    → (heartbeat none now t id worker_id ttl ≡ (t, err (lost_ownership id)))
      × (finish_success none now t id worker_id next at ≡ (t, err (lost_ownership id)))
      × (retry none now t id worker_id error at ≡ (t, err (lost_ownership id)))
      × (reschedule_after_failure none now t id worker_id error at ≡ (t, err (lost_ownership id)))
      × (fail none now t id worker_id error ≡ (t, err (lost_ownership id)))
unfolding heartbeat retry reschedule_after_failure fail
not_held-fenced t id worker_id error now at ttl next h = (
  owner_write-lost id (is_held id worker_id now) _ t h,
  finish next,
  owner_write-lost id (is_held id worker_id now) _ t h,
  owner_write-lost id (λ r. is_held id worker_id now r && is_some r.schedule) _ t
      (any-weaker (is_held id worker_id now) (λ r. is_some r.schedule) t h),
  owner_write-lost id (is_held id worker_id now) _ t h,
)
  where
    finish :
        (next : Option Instant)
        → finish_success none now t id worker_id next at ≡ (t, err (lost_ownership id))
    finish none = unfold finish_success in owner_write-lost id (is_held id worker_id now) _ t h
    finish (some n) = unfold finish_success in owner_write-lost id (is_held id worker_id now) _ t h
