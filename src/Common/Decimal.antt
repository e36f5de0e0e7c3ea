-- ===== src/Common/Decimal.antt =====
-- strconv.Itoa on natural numbers, and strconv.Atoi.
use Prim.Native.Nat.{ℕ, zero, suc, ◌+◌, ◌-◌, ◌*◌, ◌/◌, ◌%◌, ◌^◌, ◌<◌}
use mathlib.Core.Path.{◌≡◌, refl, ap, ◌∙◌}
use mathlib.Core.Logic.{◌≢◌, inl, inr}
use mathlib.Core.Bool.{Bool, true, ◌&&◌}
use mathlib.Core.Option
use mathlib.Core.Option.{Option, none, some}
use mathlib.Core.List.{[], ◌∷◌}
use native.Mathlib.Omega.{arith}
use fluxlite.Common.Tests.{ltb, leb, ◌==◌, if◌then◌else◌, Bool-cases}
use fluxlite.Common.Lists.{All}
use fluxlite.Common.Int.{ℤ, pos, negsuc}
use fluxlite.Common.Strings.{Text}

abbrev pub is_digit : ℕ → Bool
is_digit r = leb b'0' r && leb r b'9'

-- The digits of `n`, before what follows. The fuel is above `n`.
itoa_from : ℕ → ℕ → Text → Text
itoa_from zero n rest = rest
itoa_from (suc f) n rest =
    let more = itoa_from f (n / 10) ((b'0' + n % 10) ∷ rest) in
    if ltb n 10 then (b'0' + n) ∷ rest else more

unfoldable pub itoa : ℕ → Text
unfolding itoa_from
itoa n = itoa_from (suc n) n []

atoi_from : ℕ → Text → Option ℕ
atoi_from acc [] = some acc
atoi_from acc (r ∷ s) =
    let rest = atoi_from (acc * 10 + (r - b'0')) s in if is_digit r then rest else none

-- A decimal number without a sign, up to a limit; `none` is the error.
atoi_unsigned : ℕ → Text → Option ℕ
unfolding atoi_from
atoi_unsigned limit [] = none
atoi_unsigned limit (r ∷ s) = elim (atoi_from 0 (r ∷ s)) [
  | none ↦ none
  | some n ↦ if leb n limit then some n else none
]

abbrev negate : ℕ → ℤ
negate n = if n == 0 then pos 0 else negsuc (n - 1)

-- `strconv.Atoi`
unfoldable pub atoi : Text → Option ℤ
unfolding atoi_unsigned
atoi [] = none
atoi (r ∷ s) =
    if r == b'+'
    then Option.map pos (atoi_unsigned (2 ^ 63 - 1) s)
    else if r == b'-'
    then Option.map negate (atoi_unsigned (2 ^ 63) s)
    else Option.map pos (atoi_unsigned (2 ^ 63 - 1) (r ∷ s))

atoi_from-digit :
    (acc d : ℕ) (rest : Text)
    → d < 10
    → atoi_from acc ((b'0' + d) ∷ rest) ≡ atoi_from (acc * 10 + d) rest
unfolding atoi_from
atoi_from-digit acc d rest h =
    let same : acc * 10 + (b'0' + d - b'0') ≡ acc * 10 + d = omega arith in
    let digit : is_digit (b'0' + d) ≡ true = ground arith in rw (same, digit)

atoi-itoa_from :
    (f n : ℕ) (rest : Text) → n < f → atoi_from 0 (itoa_from f n rest) ≡ atoi_from n rest
unfolding itoa_from
atoi-itoa_from zero n rest h = elim h [ ]
atoi-itoa_from (suc f) n rest h = elim (Bool-cases (ltb n 10)) [
  | inl small ↦
      rw small (atoi_from-digit 0 n rest (ground arith) ∙ ap (λ k. atoi_from k rest) (omega arith))
  | inr big ↦ rw big (
      atoi-itoa_from f (n / 10) ((b'0' + n % 10) ∷ rest) (ground arith)
      ∙ atoi_from-digit (n / 10) (n % 10) rest (omega arith)
      ∙ ap (λ k. atoi_from k rest) (omega arith))
]

-- All digits, and at least one.
itoa_from-digits :
    (f n : ℕ) (rest : Text)
    → All (λ r. is_digit r ≡ true) rest
    → All (λ r. is_digit r ≡ true) (itoa_from f n rest)
unfolding itoa_from
itoa_from-digits zero n rest h = h
itoa_from-digits (suc f) n rest h = elim (Bool-cases (ltb n 10)) [
  | inl small ↦ rw small (ground arith, h)
  | inr big ↦ rw big (itoa_from-digits f (n / 10) ((b'0' + n % 10) ∷ rest) (ground arith, h))
]

pub itoa-digits : (n : ℕ) → All (λ r. is_digit r ≡ true) (itoa n)
unfolding itoa
itoa-digits n = itoa_from-digits (suc n) n [] tt

atoi_of_digits :
    (s : Text) (n : ℕ)
    → All (λ r. is_digit r ≡ true) s
    → s ≢ []
    → atoi_from 0 s ≡ some n
    → n < 2 ^ 63
    → atoi s ≡ some (pos n)
unfolding atoi
atoi_of_digits [] n h ne e small = absurd (ne refl)
atoi_of_digits (r ∷ s) n (d, h) ne e small = ground arith

itoa_from-ne : (f n : ℕ) (rest : Text) → rest ≢ [] → itoa_from f n rest ≢ []
unfolding itoa_from
itoa_from-ne zero n rest h = h
itoa_from-ne (suc f) n rest h = elim (Bool-cases (ltb n 10)) [
  | inl small ↦ rw small (λ e. cc)
  | inr big ↦ rw big (itoa_from-ne f (n / 10) ((b'0' + n % 10) ∷ rest) (λ e. cc))
]

pub itoa-ne-nil : (n : ℕ) → itoa n ≢ []
unfolding itoa itoa_from
itoa-ne-nil n = elim (Bool-cases (ltb n 10)) [
  | inl small ↦ rw small (λ e. cc)
  | inr big ↦ rw big (itoa_from-ne n (n / 10) ((b'0' + n % 10) ∷ []) (λ e. cc))
]

-- A printed number is read back.
pub atoi-itoa : (n : ℕ) → n < 2 ^ 63 → atoi (itoa n) ≡ some (pos n)
unfolding itoa
atoi-itoa n small =
    atoi_of_digits (itoa n) n (itoa-digits n) (itoa-ne-nil n)
      (atoi-itoa_from (suc n) n [] (omega arith) ∙ unfold atoi_from in refl) small
