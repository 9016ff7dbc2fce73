-- ===== src/Job/Table/Held.antt =====
-- A write by the holder of a lease succeeds, and changes its row.
use bikesnest.Prelude.{
  ℕ, ◌≡◌, refl, String, Bool, true, false, ◌&&◌, ◌||◌, Option, none, some, [], ◌∷◌, ok, arith, ◌==◌,
  any, Bool-cases, inl, inr, ==_iff, ap,
}
use bikesnest.Job.Schedule.{Instant}
use bikesnest.Job.Table.{
  JobRow, JobTable, update_where, count_where, owner_write, is_held, is_running, is_text, is_after,
}
use bikesnest.Job.Table.Laws.{row_of, HasUniqueIds, row_of-update, count_where-zero}

-- A condition on one id selects nothing among rows of other ids.
any-none :
    (id : ℕ) (p : JobRow → Bool) (narrow : (r : JobRow) → p r ≡ true → r.id ≡ id) (t : JobTable)
    → any (λ u. u.id == id) t ≡ false
    → any p t ≡ false
any-none id p narrow [] h = refl
any-none id p narrow (r ∷ t) h = elim (Bool-cases (p r)) [
  | inl e ↦ absurd (cc ((==_iff r.id id).1 (narrow r e), h))
  | inr e ↦ rw (e, any-none id p narrow t (rest (r.id == id) (any (λ u. u.id == id) t) h)) refl
]
  where
    rest : (a b : Bool) → (a || b) ≡ false → b ≡ false
    rest a b e = ground arith

abbrev get_or : JobRow → Option JobRow → JobRow
get_or s none = s
get_or s (some r) = r

count_where-one :
    (id : ℕ) (p : JobRow → Bool) (narrow : (r : JobRow) → p r ≡ true → r.id ≡ id) (t : JobTable)
    (r : JobRow)
    → HasUniqueIds t
    → row_of id t ≡ some r
    → p r ≡ true
    → count_where p t ≡ 1
unfolding count_where
count_where-one id p narrow [] r u h e = cc
count_where-one id p narrow (s ∷ t) r u h e = elim (Bool-cases (s.id == id)) [
  | inl same ↦ here same
  | inr other ↦ rw (passed other, count_where-one id p narrow t r u.1 (rw other at h) e) refl
]
  where
    passed : (s.id == id) ≡ false → p s ≡ false
    passed other = elim (Bool-cases (p s)) [
      | inl f ↦ absurd (cc ((==_iff s.id id).1 (narrow s f), other))
      | inr f ↦ f
    ]

    here : (s.id == id) ≡ true → count_where p (s ∷ t) ≡ 1
    here same =
        rw
          (
            ap (get_or s) (rw same at h),
            e,
            count_where-zero p t (any-none id p narrow t (rw ((==_iff s.id id).0 same) at u.0)),
          )
          refl

module _ (id : ℕ) (p : JobRow → Bool) (set : JobRow → JobRow)
    (narrow : (r : JobRow) → p r ≡ true → r.id ≡ id) (keeps : (r : JobRow) → (set r).id ≡ r.id)
    (t : JobTable) (r : JobRow) (u : HasUniqueIds t) (found : row_of id t ≡ some r)
    (e : p r ≡ true) where
  pub owner_write-held : owner_write none id p set t ≡ (update_where p set t, ok tt)
  unfolding owner_write
  owner_write-held = rw (count_where-one id p narrow t r u found e) refl

  pub owner_write-row : row_of id (owner_write none id p set t).0 ≡ some (set r)
  unfolding owner_write
  owner_write-row = rw e at (row_of-update p set keeps id t r found)

pub is_held_id :
    (id : ℕ) (worker_id : String) (now : Instant) (r : JobRow)
    → is_held id worker_id now r ≡ true
    → r.id ≡ id
unfolding is_held
is_held_id id worker_id now r h = (==_iff r.id id).0 (
    first (r.id == id) (is_running r.state) (is_text r.claimed_by worker_id)
      (is_after r.lease_expires_at now) h)
  where
    first : (a b c d : Bool) → (a && b && c && d) ≡ true → a ≡ true
    first a b c d h = ground arith

pub is_held_and_id :
    (id : ℕ) (worker_id : String) (now : Instant) (q : JobRow → Bool) (r : JobRow)
    → (is_held id worker_id now r && q r) ≡ true
    → r.id ≡ id
is_held_and_id id worker_id now q r h =
    is_held_id id worker_id now r (left (is_held id worker_id now r) (q r) h)
  where
    left : (a b : Bool) → (a && b) ≡ true → a ≡ true
    left a b h = ground arith
