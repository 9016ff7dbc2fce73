-- ===== src/Prelude/Chars.antt =====
-- What the program uses of Rust's `str`: characters, `trim`, `is_empty`.
use Prim.Native.Nat.{ℕ, suc}
use Prim.Native.Char.{Char, code}
use Prim.Native.String.{String}
use mathlib.Core.Bool.{Bool, true, false, ◌&&◌, ◌||◌, not}
use mathlib.Core.Path.{◌≡◌, refl}
use mathlib.Core.Logic.{inl, inr}
use native.Mathlib.Omega.{arith}
use bikesnest.Prelude.Tests.{leb, ◌==◌, if◌then◌else◌, Bool-cases}

-- `char::is_whitespace`: the code points of Unicode's White_Space.
abbrev pub is_whitespace : Char → Bool
is_whitespace c =
    let n = code c in
    (leb 9 n && leb n 13)
    || n == 32
    || n == 133
    || n == 160
    || n == 5760
    || (leb 8192 n && leb n 8202)
    || n == 8232
    || n == 8233
    || n == 8239
    || n == 8287
    || n == 12288

-- `s.is_empty()`
abbrev pub is_empty : String → Bool
is_empty String.[] = true
is_empty (String.◌∷◌ c s) = false

-- `s.chars().count()`
abbrev pub char_count : String → ℕ
char_count String.[] = 0
char_count (String.◌∷◌ c s) = suc (char_count s)

unfoldable pub trim_start : String → String
trim_start String.[] = String.[]
trim_start (String.◌∷◌ c s) =
    let rest = trim_start s in if is_whitespace c then rest else String.◌∷◌ c s

-- Drops the whitespace at the end: a character stays if something that stays follows it.
unfoldable pub trim_end : String → String
trim_end String.[] = String.[]
trim_end (String.◌∷◌ c s) =
    let rest = trim_end s in
    if is_whitespace c && is_empty rest then String.[] else String.◌∷◌ c rest

-- `s.trim()`
unfoldable pub trim : String → String
unfolding trim_start trim_end
trim s = trim_end (trim_start s)

-- `trim` has nothing left to do on its own result.
trim_end-trim_end : (s : String) → trim_end (trim_end s) ≡ trim_end s
unfolding trim_end
trim_end-trim_end String.[] = refl
trim_end-trim_end (String.◌∷◌ c s) = elim (Bool-cases (is_whitespace c && is_empty (trim_end s))) [
  | inl e ↦ rw e refl
  | inr e ↦ rw (e, trim_end-trim_end s, e) refl
]

starts_clean : String → Bool
starts_clean String.[] = true
starts_clean (String.◌∷◌ c s) = not (is_whitespace c)

trim_start-clean : (s : String) → starts_clean (trim_start s) ≡ true
unfolding trim_start starts_clean
trim_start-clean String.[] = refl
trim_start-clean (String.◌∷◌ c s) = elim (Bool-cases (is_whitespace c)) [
  | inl e ↦ rw e (trim_start-clean s)
  | inr e ↦ rw (e, e) refl
]

trim_end-clean : (s : String) → starts_clean s ≡ true → starts_clean (trim_end s) ≡ true
unfolding trim_end starts_clean
trim_end-clean String.[] h = refl
trim_end-clean (String.◌∷◌ c s) h = elim (Bool-cases (is_whitespace c)) [
  | inl e ↦ absurd (ground (arith, h, e))
  | inr e ↦ rw (e, e) refl
]

trim_start-id : (s : String) → starts_clean s ≡ true → trim_start s ≡ s
unfolding trim_start starts_clean
trim_start-id String.[] h = refl
trim_start-id (String.◌∷◌ c s) h = elim (Bool-cases (is_whitespace c)) [
  | inl e ↦ absurd (ground (arith, h, e))
  | inr e ↦ rw e refl
]

pub trim-trim : (s : String) → trim (trim s) ≡ trim s
unfolding trim
trim-trim s =
    rw
      (
        trim_start-id (trim_end (trim_start s))
            (trim_end-clean (trim_start s) (trim_start-clean s)),
        trim_end-trim_end (trim_start s),
      )
      refl
