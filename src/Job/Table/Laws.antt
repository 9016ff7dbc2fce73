-- ===== src/Job/Table/Laws.antt =====
-- What an update changes: the rows that its condition selects, and no other.
use bikesnest.Prelude.{
  ℕ, ◌≡◌, refl, ap, Bool, true, false, Option, none, some, [], ◌∷◌, err, arith, ◌==◌, if◌then◌else◌,
  any, Bool-cases, inl, inr, All, ==_iff,
}
use bikesnest.Job.Error.{lost_ownership}
use bikesnest.Job.Table.{JobRow, JobTable, update_where, count_where, owner_write}

pub count_where-zero : (p : JobRow → Bool) (t : JobTable) → any p t ≡ false → count_where p t ≡ 0
unfolding count_where
count_where-zero p [] h = refl
count_where-zero p (r ∷ t) h = ground (arith, count_where-zero p t)

pub update_where-unchanged :
    (p : JobRow → Bool) (set : JobRow → JobRow) (t : JobTable)
    → any p t ≡ false
    → update_where p set t ≡ t
unfolding update_where
update_where-unchanged p set [] h = refl
update_where-unchanged p set (r ∷ t) h = elim (Bool-cases (p r)) [
  | inl sel ↦ absurd (cc (sel, h))
  | inr out ↦ rw out (ap (λ (l : JobTable). r ∷ l) (update_where-unchanged p set t (rw out at h)))
]

-- The row of an id: ids are the table's primary key.
abbrev pub row_of : ℕ → JobTable → Option JobRow
row_of id [] = none
row_of id (r ∷ t) = if r.id == id then some r else row_of id t

abbrev pub HasUniqueIds : JobTable → Type 0
HasUniqueIds [] = Unit
HasUniqueIds (r ∷ t) = (any (λ s. s.id == r.id) t ≡ false) × HasUniqueIds t

-- A write that is refused by its condition changes nothing, and says so.
pub owner_write-lost :
    (id : ℕ) (p : JobRow → Bool) (set : JobRow → JobRow) (t : JobTable)
    → any p t ≡ false
    → owner_write none id p set t ≡ (t, err (lost_ownership id))
unfolding owner_write
owner_write-lost id p set t h = rw (count_where-zero p t h, update_where-unchanged p set t h) refl

-- Rows are found by their id, and every row of a table with unique ids is the row of its id.
pub id-row_of : (id : ℕ) (t : JobTable) (r : JobRow) → row_of id t ≡ some r → r.id ≡ id
id-row_of id [] r h = cc
id-row_of id (s ∷ t) r h = ground (arith, id-row_of id t r)

absent :
    (t : JobTable) (id : ℕ) (r : JobRow)
    → any (λ u. u.id == id) t ≡ false
    → row_of id t ≡ some r
    → ⊥
absent [] id r fresh e = cc
absent (u ∷ t) id r fresh e = ground (arith, absent t id r)

row_of-later :
    (s : JobRow) (t : JobTable) (r : JobRow)
    → any (λ u. u.id == s.id) t ≡ false
    → row_of r.id t ≡ some r
    → row_of r.id (s ∷ t) ≡ some r
row_of-later s t r fresh h = elim (Bool-cases (s.id == r.id)) [
  | inl same ↦ absurd (absent t r.id r (rw (← (==_iff s.id r.id).0 same) fresh) h)
  | inr other ↦ rw other h
]

abbrev pub IsRowOf : JobTable → JobRow → Type 0
IsRowOf t r = row_of r.id t ≡ some r

IsRowOf-later :
    (s : JobRow) (t rows : JobTable)
    → any (λ u. u.id == s.id) t ≡ false
    → All (IsRowOf t) rows
    → All (IsRowOf (s ∷ t)) rows
IsRowOf-later s t [] fresh h = tt
IsRowOf-later s t (r ∷ rows) fresh h =
    (row_of-later s t r fresh h.0, IsRowOf-later s t rows fresh h.1)

==_self : (n : ℕ) → (n == n) ≡ true
==_self n = ground arith

pub rows-IsRowOf : (t : JobTable) → HasUniqueIds t → All (IsRowOf t) t
rows-IsRowOf [] u = tt
rows-IsRowOf (r ∷ t) u = (rw (==_self r.id) refl, IsRowOf-later r t t u.0 (rows-IsRowOf t u.1))

-- A write that keeps ids acts on the row of an id exactly if its condition holds of that row.
module _ (p : JobRow → Bool) (set : JobRow → JobRow)
    (keeps : (r : JobRow) → (set r).id ≡ r.id) where
  abbrev written : JobRow → JobRow
  written r = if p r then set r else r

  written_id : (r : JobRow) → (written r).id ≡ r.id
  written_id r = elim (Bool-cases (p r)) [ inl e ↦ rw e (keeps r) | inr e ↦ rw e refl ]

  abbrev lift : Option JobRow → Option JobRow
  lift none = none
  lift (some u) = some (written u)

  pub row_of-update :
      (id : ℕ) (t : JobTable) (r : JobRow)
      → row_of id t ≡ some r
      → row_of id (update_where p set t) ≡ some (if p r then set r else r)
  unfolding update_where
  row_of-update id [] r h = cc
  row_of-update id (s ∷ t) r h = elim (Bool-cases (s.id == id)) [
    | inl same ↦ rw (written_id s, same) (ap lift (rw same at h))
    | inr other ↦ rw (written_id s, other) (row_of-update id t r (rw other at h))
  ]

  any_id-update :
      (id : ℕ) (t : JobTable)
      → any (λ s. s.id == id) (update_where p set t) ≡ any (λ s. s.id == id) t
  unfolding update_where
  any_id-update id [] = refl
  any_id-update id (s ∷ t) = rw (written_id s, any_id-update id t) refl

  pub HasUniqueIds-update : (t : JobTable) → HasUniqueIds t → HasUniqueIds (update_where p set t)
  unfolding update_where
  HasUniqueIds-update [] u = tt
  HasUniqueIds-update (r ∷ t) u =
      (rw (written_id r, any_id-update r.id t) u.0, HasUniqueIds-update t u.1)
