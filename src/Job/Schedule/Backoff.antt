-- ===== src/Job/Schedule/Backoff.antt =====
-- The retry delay: its growth, its bounds, and its cast to `i64`.
use native.Mathlib.Decide.{dec_lt}
use native.Mathlib.Nat.{one-le-pow, pow-succ', min-eq_left, min-eq_right}
use bikesnest.Prelude.{
  ℕ, zero, suc, ◌+◌, ◌-◌, ◌*◌, ◌^◌, ◌≤◌, ◌<◌, ◌≡◌, ap, ◌∙◌, sym, min, max, ◌⊎◌, inl, inr, arith,
  true,
}
use bikesnest.Prelude.Int.{pos, ltb_ℤ}
use bikesnest.Job.Schedule.{u64_max, saturate, backoff_ms, as_signed}

-- The powers of two stop at 2⁶³.
power-step :
    (e : ℕ)
    → (2 ^ min (suc e) 63 ≡ 2 * 2 ^ min e 63)
      ⊎ ((2 ^ min e 63 ≡ 2 ^ 63) × (2 ^ min (suc e) 63 ≡ 2 ^ 63))
power-step e = elim (dec_lt e 63) [
  | yes below ↦ inl (
      ap (λ (k : ℕ). 2 ^ k) (min-eq_left below)
      ∙ (pow-succ' 2 e ∙ ap (λ (k : ℕ). 2 * 2 ^ k) (sym (min-eq_left (omega arith)))))
  | no above ↦ inr (
    ap (λ (k : ℕ). 2 ^ k) (min-eq_right (omega arith)),
    ap (λ (k : ℕ). 2 ^ k) (min-eq_right (omega arith)),
  )
]

grows_by_step :
    (base p q j j' : ℕ)
    → (q ≡ 2 * p) ⊎ ((p ≡ 2 ^ 63) × (q ≡ 2 ^ 63))
    → base ≤ base * p
    → j < max base 1
    → saturate (saturate (base * p) + j) ≤ saturate (saturate (base * q) + j')
grows_by_step base p q j j' (inl e) more bound =
    let double : base * q ≡ 2 * (base * p) = ap (λ (k : ℕ). base * k) e ∙ omega arith in
    omega (arith, double)
grows_by_step base p q j j' (inr (e, f)) more bound =
    omega (arith, ap (λ (k : ℕ). base * k) e, ap (λ (k : ℕ). base * k) f)

le-mul_power : (base e : ℕ) → base ≤ base * 2 ^ min e 63
le-mul_power base e = grind (arith, one-le-pow (min e 63) 2 (omega arith))

-- A delay fits a `u64`, and however the jitters of two attempts fall, the later attempt waits no
-- less, the saturated delays included.
pub backoff_ms-grows :
    (attempt base jitter jitter' : ℕ)
    → 1 ≤ attempt
    → jitter < max base 1
    → (backoff_ms attempt base jitter ≤ u64_max)
      × (backoff_ms attempt base jitter ≤ backoff_ms (attempt + 1) base jitter')
unfolding backoff_ms
backoff_ms-grows (suc e) base j j' pos_attempt bound =
    let first : suc e - 1 ≡ e = omega arith in
    let second : suc e + 1 - 1 ≡ suc e = omega arith in
    (
      omega arith,
      rw (first, second)
          (grows_by_step base (2 ^ min e 63) (2 ^ min (suc e) 63) j j' (power-step e)
            (le-mul_power base e) bound),
    )
backoff_ms-grows zero base j j' pos_attempt bound = absurd (omega arith)

negative : (d : ℕ) → 2 ^ 63 ≤ d → d ≤ u64_max → ltb_ℤ (as_signed d) (pos 0) ≡ true
unfolding as_signed
negative d big fits = ground arith

-- From the 64th attempt on, with a base of at least one millisecond and whatever the jitter, the
-- cast of the worker to a signed integer makes the delay negative.
pub backoff_ms-negative :
    (attempt base jitter : ℕ)
    → 64 ≤ attempt
    → 1 ≤ base
    → ltb_ℤ (as_signed (backoff_ms attempt base jitter)) (pos 0) ≡ true
unfolding backoff_ms as_signed
backoff_ms-negative attempt base j late positive =
    let top : 2 ^ min (attempt - 1) 63 ≡ 2 ^ 63 =
      ap (λ (k : ℕ). 2 ^ k) (min-eq_right (omega arith)) in
    let scaled : base * 2 ^ min (attempt - 1) 63 ≡ base * 2 ^ 63 = ap (λ (k : ℕ). base * k) top in
    negative (backoff_ms attempt base j) (omega (arith, scaled)) (omega arith)
