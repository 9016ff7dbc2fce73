-- ===== src/Limiter/Window.antt =====
-- The sliding window of one bucket: what `trim_events` keeps.
use bikesnest.Prelude.{
  ℕ, ◌-◌, ◌≤◌, ◌<◌, ◌≡◌, refl, sym, ap, inl, inr, List, [], ◌∷◌, ◌++◌, arith, leb, Bool-cases, All,
  keep, ltb, true, false,
}
use bikesnest.Limiter.{trim_events}

-- Instants that never go back, from `lo` on.
abbrev pub IsAscending : ℕ → List ℕ → Type 0
IsAscending lo [] = Unit
IsAscending lo (t ∷ ts) = (lo ≤ t) × IsAscending t ts

-- Every instant has left the window.
abbrev pub AllAged : ℕ → ℕ → List ℕ → Type 0
AllAged window now es = All (λ e. window ≤ now - e) es

-- Trimming drops a first part of the events, all of it out of the window.
pub trim_events_split :
    (now window : ℕ) (es : List ℕ)
    → (dropped : List ℕ) × (es ≡ dropped ++ trim_events now window es) × AllAged window now dropped
unfolding trim_events
trim_events_split now window [] = ([], refl, tt)
trim_events_split now window (e ∷ es) = elim (Bool-cases (leb window (now - e))) [
  | inl old ↦
      let (d, split, aged) = trim_events_split now window es in
      (e ∷ d, rw old (ap (λ (l : List ℕ). e ∷ l) split), (ground arith, aged))
  | inr new ↦ ([], rw new refl, tt)
]

-- From an event inside the window on, all are.
recent :
    (now window lo : ℕ) (es : List ℕ)
    → now - lo < window
    → IsAscending lo es
    → All (λ e. now - e < window) es
recent now window lo [] h asc = tt
recent now window lo (e ∷ es) h asc =
    (omega (arith, asc.0), recent now window e es (omega (arith, asc.0)) asc.1)

-- What trimming keeps of ascending events is inside the window.
pub trim_events-recent :
    (now window lo : ℕ) (es : List ℕ)
    → IsAscending lo es
    → All (λ e. now - e < window) (trim_events now window es)
unfolding trim_events
trim_events-recent now window lo [] asc = tt
trim_events-recent now window lo (e ∷ es) asc = elim (Bool-cases (leb window (now - e))) [
  | inl old ↦ rw old (trim_events-recent now window e es asc.1)
  | inr new ↦ rw new (ground arith, recent now window e es (ground arith) asc.1)
]

-- The events that are still inside the window, wherever they stand.
abbrev inside : ℕ → ℕ → List ℕ → List ℕ
inside now window = keep (λ e. ltb (now - e) window)

keep-recent :
    (now window : ℕ) (es : List ℕ) → All (λ e. now - e < window) es → inside now window es ≡ es
keep-recent now window [] h = refl
keep-recent now window (e ∷ es) h =
    let this : ltb (now - e) window ≡ true = ground (arith, h.0) in
    rw this (ap (λ (l : List ℕ). e ∷ l) (keep-recent now window es h.1))

-- Of ascending events, trimming keeps exactly those inside the window.
pub trim_events-inside :
    (now window lo : ℕ) (es : List ℕ)
    → IsAscending lo es
    → trim_events now window es ≡ inside now window es
unfolding trim_events
trim_events-inside now window lo [] asc = refl
trim_events-inside now window lo (e ∷ es) asc = elim (Bool-cases (leb window (now - e))) [
  | inl old ↦
      let out : ltb (now - e) window ≡ false = ground (arith, old) in
      rw (old, out) (trim_events-inside now window e es asc.1)
  | inr new ↦
      let within : now - e < window = ground (arith, new) in
      rw new (sym (keep-recent now window (e ∷ es) (within, recent now window e es within asc.1)))
]
