-- ===== src/Job/Claim/Selected.antt =====
-- What a selection of rows (`WHERE`, `ORDER BY`, `LIMIT`) leaves out.
use bikesnest.Prelude.{
  ℕ, ◌≡◌, Bool, false, Option, none, some, List, [], ◌∷◌, ◌++◌, arith, ◌==◌, any, keep, take,
  Bool-cases, inl, inr, All, refl, zero, suc, ap, ==_iff,
}
use bikesnest.Job.Table.{JobRow, JobTable}
use bikesnest.Job.Table.Laws.{row_of, HasUniqueIds}
use bikesnest.Job.Claim.{insert_row, order_by}

abbrev pub Other : ℕ → JobRow → Type 0
Other id r = (r.id == id) ≡ false

module _ (P : JobRow → Type 0) where
  All-append : (xs ys : List JobRow) → All P xs → All P ys → All P (xs ++ ys)
  All-append [] ys hx hy = hy
  All-append (x ∷ xs) ys hx hy = (hx.0, All-append xs ys hx.1 hy)

  All-take : (n : ℕ) (xs : List JobRow) → All P xs → All P (take n xs)
  All-take zero xs h = tt
  All-take (suc n) [] h = tt
  All-take (suc n) (x ∷ xs) h = (h.0, All-take n xs h.1)

  All-insert_row :
      (first : JobRow → JobRow → Bool) (a : JobRow) (xs : List JobRow)
      → P a
      → All P xs
      → All P (insert_row first a xs)
  unfolding insert_row
  All-insert_row first a [] ha h = (ha, tt)
  All-insert_row first a (b ∷ xs) ha h = elim (Bool-cases (first a b)) [
    | inl e ↦ rw e (ha, h)
    | inr e ↦ rw e (h.0, All-insert_row first a xs ha h.1)
  ]

  All-order_by :
      (first : JobRow → JobRow → Bool) (xs : List JobRow) → All P xs → All P (order_by first xs)
  unfolding order_by
  All-order_by first [] h = tt
  All-order_by first (x ∷ xs) h =
      All-insert_row first x (order_by first xs) h.0 (All-order_by first xs h.1)

  pub All-selected :
      (n : ℕ) (first : JobRow → JobRow → Bool) (xs : List JobRow)
      → All P xs
      → All P (take n (order_by first xs))
  All-selected n first xs h = All-take n _ (All-order_by first xs h)

  pub All-merged :
      (n : ℕ) (first : JobRow → JobRow → Bool) (xs ys : List JobRow)
      → All P xs
      → All P ys
      → All P (take n (order_by first (take n (order_by first xs) ++ take n (order_by first ys))))
  All-merged n first xs ys hx hy =
      All-selected n first _
        (All-append _ _ (All-selected n first xs hx) (All-selected n first ys hy))

All-keep :
    (P : JobRow → Type 0) (q : JobRow → Bool) (u : JobRow) (t : JobTable)
    → P u
    → All P (keep q t)
    → All P (keep q (u ∷ t))
All-keep P q u t h rest = elim (Bool-cases (q u)) [ inl e ↦ rw e (h, rest) | inr e ↦ rw e rest ]

fresh-Other :
    (q : JobRow → Bool) (id : ℕ) (t : JobTable)
    → any (λ u. u.id == id) t ≡ false
    → All (Other id) (keep q t)
fresh-Other q id [] h = tt
fresh-Other q id (u ∷ t) h = elim (Bool-cases (u.id == id)) [
  | inl same ↦ absurd (cc (same, h))
  | inr other ↦ All-keep (Other id) q u t other (fresh-Other q id t (rw other at h))
]

abbrev get_or : JobRow → Option JobRow → JobRow
get_or s none = s
get_or s (some r) = r

Option_inj : {s r : JobRow} → some s ≡ some r → s ≡ r
Option_inj {s} h = ap (get_or s) h

pub other_flip : (a b id : ℕ) → (a == id) ≡ false → b ≡ id → (b == a) ≡ false
other_flip a b id h e = ground arith

-- A selection by a condition that the row of an id does not meet has no row of that id.
pub kept-Other :
    (q : JobRow → Bool) (id : ℕ) (t : JobTable) (r : JobRow)
    → HasUniqueIds t
    → row_of id t ≡ some r
    → q r ≡ false
    → All (Other id) (keep q t)
kept-Other q id [] r u h e = tt
kept-Other q id (s ∷ t) r u h e = elim (Bool-cases (s.id == id)) [
  | inl same ↦
      dropped (Option_inj (rw same at h)) (fresh-Other q id t (rw ((==_iff s.id id).0 same) at u.0))
  | inr other ↦ All-keep (Other id) q s t other (kept-Other q id t r u.1 (rw other at h) e)
]
  where
    dropped : s ≡ r → All (Other id) (keep q t) → All (Other id) (keep q (s ∷ t))
    dropped same rest = rw (same, e) rest

pub among-Other :
    (rows : List JobRow) (r : JobRow) → All (Other r.id) rows → any (λ c. c.id == r.id) rows ≡ false
among-Other [] r h = refl
among-Other (c ∷ rows) r h = rw (h.0, among-Other rows r h.1) refl
