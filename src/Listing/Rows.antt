-- ===== src/Listing/Rows.antt =====
-- The statements on a table, as a list of rows, and their lemmas.
use mathlib.Core.Option
use bikesnest.Prelude.{
  ℕ, suc, ◌≡◌, refl, Bool, true, false, Option, none, some, List, [], ◌∷◌, if◌then◌else◌, All,
  Bool-cases, inl, inr, ap, sym, ◌∙◌,
}

pub some_not_none {ℓ} : {A : Type 0} {P : Type ℓ} {a : A} → some a ≡ none → P
some_not_none e = cc

pub some_inj : {A : Type 0} {a b : A} → some a ≡ some b → a ≡ b
some_inj e = cc

module _ {A : Type 0} where
  -- `SELECT … WHERE p`, the first row
  unfoldable pub find : (A → Bool) → List A → Option A
  find p [] = none
  find p (r ∷ rest) = let later = find p rest in if p r then some r else later

  -- `UPDATE … SET set WHERE p`
  unfoldable pub update_where : (A → Bool) → (A → A) → List A → List A
  update_where p set [] = []
  update_where p set (r ∷ rest) =
      let later = update_where p set rest in if p r then set r ∷ later else r ∷ later

  -- `COUNT(*) … WHERE p`, and the rows that a statement affects
  unfoldable pub count : (A → Bool) → List A → ℕ
  count p [] = 0
  count p (r ∷ rest) = let later = count p rest in if p r then suc later else later

  -- `UPDATE … RETURNING`, the first row
  unfoldable pub updated : (A → Bool) → (A → A) → List A → Option A
  unfolding find
  updated p set rows = Option.map set (find p rows)

  -- A row is found as the update leaves it, if the update keeps what it is found by.
  pub find-update_where :
      (p q : A → Bool) (set : A → A) (rows : List A)
      → ((r : A) → p (set r) ≡ p r)
      → find p (update_where q set rows) ≡ Option.map (λ r. if q r then set r else r) (find p rows)
  unfolding find update_where
  find-update_where p q set [] kept = refl
  find-update_where p q set (r ∷ rest) kept = elim (Bool-cases (q r)) [
    | inl sel ↦ elim (Bool-cases (p r)) [
      | inl e ↦ rw (sel, kept r, e, sel) refl
      | inr e ↦ rw (sel, kept r, e) (find-update_where p q set rest kept)
    ]
    | inr out ↦ elim (Bool-cases (p r)) [
      | inl e ↦ rw (out, e, out) refl
      | inr e ↦ rw (out, e) (find-update_where p q set rest kept)
    ]
  ]

  -- What holds of every row, where the update keeps or brings it.
  pub All-update_where :
      {P Q : A → Type 0} (q : A → Bool) (set : A → A) (rows : List A)
      → ((r : A) → P r → q r ≡ true → Q (set r))
      → ((r : A) → P r → q r ≡ false → Q r)
      → All P rows
      → All Q (update_where q set rows)
  unfolding update_where
  All-update_where q set [] here kept h = tt
  All-update_where q set (r ∷ rest) here kept h = elim (Bool-cases (q r)) [
    | inl sel ↦ rw sel (here r h.0 sel, All-update_where q set rest here kept h.1)
    | inr out ↦ rw out (kept r h.0 out, All-update_where q set rest here kept h.1)
  ]

  pub All-map : {P Q : A → Type 0} (rows : List A) → ((r : A) → P r → Q r) → All P rows → All Q rows
  All-map [] f h = tt
  All-map (r ∷ rest) f h = (f r h.0, All-map rest f h.1)

  pub find-All :
      (P : A → Type 0) (p : A → Bool) (rows : List A) (r : A)
      → find p rows ≡ some r
      → All P rows
      → P r × (p r ≡ true)
  unfolding find
  find-All P p [] r e h = cc
  find-All P p (s ∷ rest) r e h = elim (Bool-cases (p s)) [
    | inl sel ↦ let same : s ≡ r = some_inj (rw sel at e) in rw (← same) (h.0, sel)
    | inr out ↦ find-All P p rest r (rw out at e) h.1
  ]

  -- The first row that passes a test passes first every stricter test that it passes.
  pub find_narrow :
      (p q : A → Bool) (rows : List A) (r : A)
      → find p rows ≡ some r
      → q r ≡ true
      → ((s : A) → q s ≡ true → p s ≡ true)
      → find q rows ≡ some r
  unfolding find
  find_narrow p q [] r e h sub = cc
  find_narrow p q (s ∷ rest) r e h sub = elim (Bool-cases (p s)) [
    | inl sel ↦ let same : s ≡ r = some_inj (rw sel at e) in rw (ap q same, h) (ap some same)
    | inr out ↦ elim (Bool-cases (q s)) [
      | inl strict ↦ absurd (cc (sub s strict, out))
      | inr loose ↦ rw loose (find_narrow p q rest r (rw out at e) h sub)
    ]
  ]

  pub find_passes : (p : A → Bool) (rows : List A) (r : A) → find p rows ≡ some r → p r ≡ true
  unfolding find
  find_passes p [] r e = cc
  find_passes p (s ∷ rest) r e = elim (Bool-cases (p s)) [
    | inl sel ↦ let same : s ≡ r = some_inj (rw sel at e) in ap p (sym same) ∙ sel
    | inr out ↦ find_passes p rest r (rw out at e)
  ]

  pub find-none :
      (p q : A → Bool) (rows : List A)
      → find p rows ≡ none
      → ((s : A) → q s ≡ true → p s ≡ true)
      → find q rows ≡ none
  unfolding find
  find-none p q [] e sub = refl
  find-none p q (s ∷ rest) e sub = elim (Bool-cases (q s)) [
    | inl hit ↦ some_not_none (rw (sub s hit) at e)
    | inr out ↦ elim (Bool-cases (p s)) [
      | inl sel ↦ some_not_none (rw sel at e)
      | inr other ↦ rw out (find-none p q rest (rw other at e) sub)
    ]
  ]
