-- ===== src/Listing/Snapshot/Codes.antt =====
-- What the table of security attributes holds after an edit (`write_security`,
-- crates/infrastructure/src/community/contribution.rs).
use mathlib.Core.Option
use bikesnest.Prelude.{
  ℕ, ◌≡◌, refl, ap, sym, ◌∙◌, String, Bool, true, false, ◌&&◌, ◌||◌, Option, none, some, List, [],
  ◌∷◌, ◌++◌, any, ◌==◌, ◌=s=◌, if◌then◌else◌, Bool-cases, inl, inr, ==_iff,
}
use text.Mathlib.TextEquality.{eq_iff}
use bikesnest.Domain.Parking.{SecurityFeature, state_in, state_smallint, security_feature_codes}
use bikesnest.Listing.{SecurityRow}
use bikesnest.Listing.Rows.{find, find-update_where, find_passes, some_not_none}
use bikesnest.Listing.Snapshot.{is_feature, upsert_security, write_codes, write_security}

-- The state that the table gives a code of a listing.
unfoldable pub state_at : ℕ → String → List SecurityRow → Option ℕ
unfolding find
state_at k code rows = Option.map SecurityRow.state (find (is_feature k code) rows)

find-any :
    (q : SecurityRow → Bool) (rows : List SecurityRow)
    → any q rows ≡ true
    → (r : SecurityRow) × (find q rows ≡ some r)
unfolding find
find-any q [] h = cc
find-any q (r ∷ rows) h = elim (Bool-cases (q r)) [
  | inl e ↦ (r, rw e refl)
  | inr e ↦ let (s, f) = find-any q rows (rw e at h) in (s, rw e f)
]

none-any :
    (q : SecurityRow → Bool) (rows : List SecurityRow) → any q rows ≡ false → find q rows ≡ none
unfolding find
none-any q [] h = refl
none-any q (r ∷ rows) h = elim (Bool-cases (q r)) [
  | inl e ↦ absurd (cc (rw e at h))
  | inr e ↦ rw e (none-any q rows (rw e at h))
]

find-append :
    (q : SecurityRow → Bool) (rows : List SecurityRow) (y : SecurityRow)
    → find q (rows ++ (y ∷ []))
      ≡ elim (find q rows) [ some r ↦ some r | none ↦ if q y then some y else none ]
unfolding find
find-append q [] y = refl
find-append q (r ∷ rows) y = elim (Bool-cases (q r)) [
  | inl e ↦ rw e refl
  | inr e ↦ rw e (find-append q rows y)
]

both : (x y : Bool) → x && y ≡ true → (x ≡ true) × (y ≡ true)
both true y e = (refl, e)
both false y e = cc

-- The keys of a row and of a test are one key.
same_key :
    (k id : ℕ) (c code : String) (r : SecurityRow)
    → is_feature k c r ≡ true
    → is_feature id code r ≡ ((k == id) && (c =s= code))
same_key k id c code r h =
    let (here, named) = both (r.location_id == k) (r.feature_code =s= c) h in
    rw ((==_iff r.location_id k).0 here, (eq_iff r.feature_code c).0 named) refl

find_key :
    (k id : ℕ) (c code : String) (rows : List SecurityRow)
    → (k == id) && (c =s= code) ≡ true
    → find (is_feature k c) rows ≡ find (is_feature id code) rows
find_key k id c code rows h =
    let (here, named) = both (k == id) (c =s= code) h in
    rw ((==_iff k id).0 here, (eq_iff c code).0 named) refl

swapped : (k id : ℕ) (c code : String) → (id == k) && (code =s= c) ≡ ((k == id) && (c =s= code))
swapped k id c code = elim (Bool-cases ((k == id) && (c =s= code))) [
  | inl h ↦
      let (here, named) = both (k == id) (c =s= code) h in
      rw ((==_iff k id).0 here, (eq_iff c code).0 named) refl
  | inr o ↦ elim (Bool-cases ((id == k) && (code =s= c))) [
    | inl h ↦
        let (here, named) = both (id == k) (code =s= c) h in
        rw ((==_iff id k).0 here, (eq_iff code c).0 named) refl
    | inr p ↦ p ∙ sym o
  ]
]

module _ (k id : ℕ) (c code : String) (state : ℕ) (rows : List SecurityRow) where
  abbrev new_row : SecurityRow
  new_row = record { location_id = id; feature_code = code; state = state }

  abbrev hit : Bool
  hit = (k == id) && (c =s= code)

  over_there :
      any (is_feature id code) rows ≡ true
      → (o : Option SecurityRow) → find (is_feature k c) rows ≡ o
      → Option.map SecurityRow.state
          (Option.map (λ r. if is_feature id code r then record r { state = state } else r) o)
        ≡ (if hit then some state else Option.map SecurityRow.state o)
  over_there h none e = elim (Bool-cases hit) [
    | inl here ↦
        let (s, f) = find-any (is_feature id code) rows h in
        some_not_none (sym f ∙ (sym (find_key k id c code rows here) ∙ e))
    | inr there ↦ rw there refl
  ]
  over_there h (some r) e =
      let key = same_key k id c code r (find_passes (is_feature k c) rows r e) in
      elim (Bool-cases hit) [ inl here ↦ rw (key, here) refl | inr there ↦ rw (key, there) refl ]

  appended :
      any (is_feature id code) rows ≡ false
      → (o : Option SecurityRow) → find (is_feature k c) rows ≡ o
      → Option.map SecurityRow.state (elim o [
        | some r ↦ some r
        | none ↦ if is_feature k c new_row then some new_row else none
      ])
        ≡ (if hit then some state else Option.map SecurityRow.state o)
  appended h none e = elim (Bool-cases hit) [
    | inl here ↦ rw (swapped k id c code, here) refl
    | inr there ↦ rw (swapped k id c code, there) refl
  ]
  appended h (some r) e = elim (Bool-cases hit) [
    | inl here ↦
        some_not_none
          (sym e ∙ (find_key k id c code rows here ∙ none-any (is_feature id code) rows h))
    | inr there ↦ rw there refl
  ]

  state_at-upsert_security :
      state_at k c (upsert_security id code state rows)
      ≡ (if hit then some state else state_at k c rows)
  unfolding state_at upsert_security
  state_at-upsert_security = elim (Bool-cases (any (is_feature id code) rows)) [
    | inl h ↦
        rw
          (
            h,
            find-update_where (is_feature k c) (is_feature id code)
                (λ r. record r { state = state }) rows (λ r. refl),
          )
          (over_there h (find (is_feature k c) rows) refl)
    | inr h ↦
        rw (h, find-append (is_feature k c) rows new_row)
          (appended h (find (is_feature k c) rows) refl)
  ]

join :
    (here now later : Bool) (s s' : ℕ) (before : Option ℕ)
    → (now ≡ true → s ≡ s')
    → (if here && later then some s' else (if here && now then some s else before))
      ≡ (if here && (now || later) then some s' else before)
join false now later s s' before e = refl
join true true true s s' before e = refl
join true true false s s' before e = ap some (e refl)
join true false later s s' before e = refl

state_at-write_codes :
    (k id : ℕ) (c : String) (codes : List String) (features : List SecurityFeature)
    (rows : List SecurityRow)
    → state_at k c (write_codes id codes features rows) ≡ (
        if (k == id) && any (λ code. c =s= code) codes
        then some (state_smallint (state_in features c))
        else state_at k c rows)
unfolding write_codes
state_at-write_codes k id c [] features rows = elim (Bool-cases (k == id)) [
  | inl e ↦ rw e refl
  | inr e ↦ rw e refl
]
state_at-write_codes k id c (code ∷ codes) features rows =
    state_at-write_codes k id c codes features _
    ∙ (ap
          (λ before.
            if (k == id) && any (λ d. c =s= d) codes
            then some (state_smallint (state_in features c))
            else before)
          (state_at-upsert_security k id c code (state_smallint (state_in features code)) rows)
        ∙ join (k == id) (c =s= code) (any (λ d. c =s= d) codes) _ _ (state_at k c rows)
            (λ e. ap (λ d. state_smallint (state_in features d)) (sym ((eq_iff c code).0 e))))

-- After the security attributes of a listing are written, each known code of that listing has the
-- state that the features give it, whether or not the table had a row for it; any other code, and
-- every code of another listing, has the state that it had before.
pub state_at-write_security :
    (k id : ℕ) (c : String) (features : List SecurityFeature) (rows : List SecurityRow)
    → state_at k c (write_security id features rows) ≡ (
        if (k == id) && any (λ code. c =s= code) security_feature_codes
        then some (state_smallint (state_in features c))
        else state_at k c rows)
unfolding write_security
state_at-write_security k id c features rows =
    state_at-write_codes k id c security_feature_codes features rows
