-- ===== src/Domain/Community/Signals.antt =====
-- Confidence depends on the multiset of the signals, and what each value of it says.
use mathlib.Core.Logic.{∥∥₁_elim}
use mathlib.Core.List.{Perm, Permᴰ}
use bikesnest.Prelude.{
  ◌≡◌, ◌≢◌, ◌↔◌, refl, sym, ap, ◌∙◌, Bool, true, false, ◌||◌, Option, none, some, List, [], ◌∷◌,
  arith, if◌then◌else◌, any, keep, Bool-cases, inl, inr,
}
use bikesnest.Prelude.Int.{ℤ, ltb_ℤ, max_ℤ, eq_of_parts}
use bikesnest.Domain.Codes.Confidence.{Confidence, reported, conflicting}
use bikesnest.Domain.Freshness.{DateTime, FreshnessThresholds, FreshnessCategory, never, categorize}
use bikesnest.Domain.Freshness.Order.{categorize_mono}
use bikesnest.Domain.Community.{
  ExistenceSignal, is_gone, is_positive, max_from, latest_of, of_category, of_latest, is_nil,
  confidence,
}

-- The latest of some instants.
abbrev later : ℤ → Option ℤ → Option ℤ
later a none = some a
later a (some b) = some (max_ℤ a b)

-- The instant of the latest positive signal.
abbrev latest_positive : List ExistenceSignal → Option ℤ
latest_positive [] = none
latest_positive (s ∷ rest) =
    if is_positive s then later s.at (latest_positive rest) else latest_positive rest

max_ℤ_assoc : (a b c : ℤ) → max_ℤ a (max_ℤ b c) ≡ max_ℤ (max_ℤ a b) c
max_ℤ_assoc a b c = ground (arith, eq_of_parts a b, eq_of_parts b c, eq_of_parts a c)

max_ℤ_comm : (a b : ℤ) → max_ℤ a b ≡ max_ℤ b a
max_ℤ_comm a b = ground (arith, eq_of_parts a b)

later_swap : (a b : ℤ) (o : Option ℤ) → later a (later b o) ≡ later b (later a o)
later_swap a b none = ap some (max_ℤ_comm a b)
later_swap a b (some c) =
    ap some
      (max_ℤ_assoc a b c ∙ (ap (λ (m : ℤ). max_ℤ m c) (max_ℤ_comm a b) ∙ sym (max_ℤ_assoc b a c)))

later-max_ℤ : (a b : ℤ) (o : Option ℤ) → later (max_ℤ a b) o ≡ later a (later b o)
later-max_ℤ a b none = refl
later-max_ℤ a b (some c) = ap some (sym (max_ℤ_assoc a b c))

abbrev latest_instant : List ExistenceSignal → Option ℤ
latest_instant [] = none
latest_instant (s ∷ rest) = later s.at (latest_instant rest)

-- The one that `max_by` keeps is the later.
kept_at :
    (best s : ExistenceSignal) → (if ltb_ℤ s.at best.at then best else s).at ≡ max_ℤ best.at s.at
kept_at best s = ground (arith, eq_of_parts best.at s.at)

max_from-at :
    (best : ExistenceSignal) (l : List ExistenceSignal)
    → some (max_from best l).at ≡ later best.at (latest_instant l)
unfolding max_from
max_from-at best [] = refl
max_from-at best (s ∷ rest) =
    max_from-at (if ltb_ℤ s.at best.at then best else s) rest
    ∙ (ap (λ (m : ℤ). later m (latest_instant rest)) (kept_at best s)
        ∙ later-max_ℤ best.at s.at (latest_instant rest))

latest_instant-keep :
    (l : List ExistenceSignal) → latest_instant (keep is_positive l) ≡ latest_positive l
latest_instant-keep [] = refl
latest_instant-keep (s ∷ rest) = elim (Bool-cases (is_positive s)) [
  | inl p ↦ rw p (ap (later s.at) (latest_instant-keep rest))
  | inr n ↦ rw n (latest_instant-keep rest)
]

abbrev of_instant : Option ℤ → DateTime → FreshnessThresholds → Confidence
of_instant none now t = reported
of_instant (some at) now t = of_category (categorize (some at) now t)

of_latest-latest_of :
    (l : List ExistenceSignal) (now : DateTime) (t : FreshnessThresholds)
    → of_latest (latest_of l) now t ≡ of_instant (latest_instant l) now t
unfolding latest_of
of_latest-latest_of [] now t = refl
of_latest-latest_of (s ∷ rest) now t =
    ap (λ (o : Option ℤ). of_instant o now t) (max_from-at s rest)

-- What confidence reads of the signals: are there none, is one of them `no_longer_exists`, and
-- when was the latest `still_exists`.
abbrev Summary : Type 0
Summary = Bool × Bool × Option ℤ

abbrev with_signal : ExistenceSignal → Summary → Summary
with_signal s (empty, gone, latest) =
    (false, is_gone s || gone, if is_positive s then later s.at latest else latest)

abbrev summary : List ExistenceSignal → Summary
summary [] = (true, false, none)
summary (s ∷ rest) = with_signal s (summary rest)

abbrev of_summary : Summary → DateTime → FreshnessThresholds → Confidence
of_summary (empty, gone, latest) now t =
    if empty then reported else if gone then conflicting else of_instant latest now t

summary_parts :
    (l : List ExistenceSignal) → summary l ≡ (is_nil l, any is_gone l, latest_positive l)
summary_parts [] = refl
summary_parts (s ∷ rest) = rw (summary_parts rest) refl

confidence-summary :
    (l : List ExistenceSignal) (now : DateTime) (t : FreshnessThresholds)
    → confidence l now t ≡ of_summary (summary l) now t
unfolding confidence
confidence-summary l now t =
    rw (summary_parts l, of_latest-latest_of (keep is_positive l) now t, latest_instant-keep l) refl

or_swap : (a b c : Bool) → (a || (b || c)) ≡ (b || (a || c))
or_swap a b c = ground arith

with_signal_swap :
    (a b : ExistenceSignal) (m : Summary)
    → with_signal a (with_signal b m) ≡ with_signal b (with_signal a m)
with_signal_swap a b (empty, gone, latest) =
    let instants : (if is_positive a
          then later a.at (if is_positive b then later b.at latest else latest)
          else (if is_positive b then later b.at latest else latest))
        ≡ (if is_positive b
            then later b.at (if is_positive a then later a.at latest else latest)
            else (if is_positive a then later a.at latest else latest)) =
      (elim (Bool-cases (is_positive a)) [
        | inl pa ↦ elim (Bool-cases (is_positive b)) [
          | inl pb ↦ rw (pa, pb) (later_swap a.at b.at latest)
          | inr nb ↦ rw (pa, nb) refl
        ]
        | inr na ↦ rw na refl
      ]) in
    λ i. (false, or_swap (is_gone a) (is_gone b) gone i, instants i)

summary-perm : {xs ys : List ExistenceSignal} → Permᴰ xs ys → summary xs ≡ summary ys
summary-perm Permᴰ.nil = refl
summary-perm (Permᴰ.cons {b = b} e p) = rw e (ap (with_signal b) (summary-perm p))
summary-perm (Permᴰ.swap {a' = a'} {b' = b'} {l = l} e f) =
    rw (e, f) (with_signal_swap b' a' (summary l))
summary-perm (Permᴰ.trans p q) = summary-perm p ∙ summary-perm q

Confidence-set : IsSet Confidence
Confidence-set = hlevel

-- Confidence does not depend on the order in which the signals are read.
pub confidence-perm :
    (xs ys : List ExistenceSignal) (now : DateTime) (t : FreshnessThresholds)
    → Perm xs ys
    → confidence xs now t ≡ confidence ys now t
confidence-perm xs ys now t p = ∥∥₁_elim p (Confidence-set _ _) λ q.
    confidence-summary xs now t
    ∙ (ap (λ (m : Summary). of_summary m now t) (summary-perm q)
        ∙ sym (confidence-summary ys now t))

of_category-ne-conflicting : (c : FreshnessCategory) → of_category c ≢ conflicting
unfolding of_category
of_category-ne-conflicting c = ground arith

of_category-reported : (c : FreshnessCategory) → of_category c ≡ reported → c ≡ never
unfolding of_category
of_category-reported c h = ground arith

of_instant-ne-conflicting :
    (o : Option ℤ) (now : DateTime) (t : FreshnessThresholds) → of_instant o now t ≢ conflicting
of_instant-ne-conflicting none now t = cc
of_instant-ne-conflicting (some a) now t = of_category-ne-conflicting (categorize (some a) now t)

of_instant-reported :
    (o : Option ℤ) (now : DateTime) (t : FreshnessThresholds)
    → of_instant o now t ≡ reported
    → o ≡ none
of_instant-reported none now t h = refl
of_instant-reported (some a) now t h =
    absurd ((categorize_mono a now now t (omega arith)).1 (of_category-reported _ h))

later-ne-none : (a : ℤ) (o : Option ℤ) → later a o ≢ none
later-ne-none a none = cc
later-ne-none a (some b) = cc

latest_positive-none_iff :
    (l : List ExistenceSignal) → (latest_positive l ≡ none) ↔ (any is_positive l ≡ false)
latest_positive-none_iff [] = (λ e. refl, λ e. refl)
latest_positive-none_iff (s ∷ rest) = elim (Bool-cases (is_positive s)) [
  | inl p ↦ rw p (λ e. absurd (later-ne-none s.at (latest_positive rest) e), λ e. cc)
  | inr n ↦ rw n (latest_positive-none_iff rest)
]

-- A location is in conflict exactly when some signal says that it no longer exists. With no such
-- signal it is only reported exactly when no signal says that it still exists.
pub confidence_iff :
    (signals : List ExistenceSignal) (now : DateTime) (t : FreshnessThresholds)
    → ((confidence signals now t ≡ conflicting) ↔ (any is_gone signals ≡ true))
      × ((confidence signals now t ≡ reported)
          ↔ ((any is_gone signals ≡ false) × (any is_positive signals ≡ false)))
confidence_iff signals now t =
    rw (confidence-summary signals now t, summary_parts signals) (parts signals)
  where
    parts :
        (l : List ExistenceSignal)
        → ((of_summary (is_nil l, any is_gone l, latest_positive l) now t ≡ conflicting)
            ↔ (any is_gone l ≡ true))
          × ((of_summary (is_nil l, any is_gone l, latest_positive l) now t ≡ reported)
              ↔ ((any is_gone l ≡ false) × (any is_positive l ≡ false)))
    parts [] = ((λ e. cc, λ e. cc), (λ e. (refl, refl), λ e. refl))
    parts (s ∷ rest) =
        let l : List ExistenceSignal = s ∷ rest in
        let (to, from) = latest_positive-none_iff l in
        elim (Bool-cases (any is_gone l)) [
          | inl gone ↦ rw gone ((λ e. refl, λ e. refl), (λ e. cc, λ e. cc (e.0)))
          | inr still ↦ rw still (
            (λ e. absurd (of_instant-ne-conflicting (latest_positive l) now t e), λ e. cc),
            (
              λ e. (refl, to (of_instant-reported (latest_positive l) now t e)),
              λ e. ap (λ (o : Option ℤ). of_instant o now t) (from e.1),
            ),
          )
        ]
