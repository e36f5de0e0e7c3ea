-- ===== src/Common/Int.antt =====
-- Signed integers over the native numbers.
use Prim.Native.Nat.{ℕ, suc, ◌+◌, ◌-◌, ◌^◌, ◌<◌, ◌%◌}
use native.Mathlib.Nat.{mod-eq_of_lt}
use mathlib.Core.Path.{◌≡◌, refl}
use native.Mathlib.Omega.{arith}
use mathlib.Core.Bool.{Bool, true}
use fluxlite.Common.Tests.{ltb, leb, if◌then◌else◌}

-- `negsuc n` is -(n + 1).
pub data ℤ : Type 0 where
  pos : ℕ → ℤ
  negsuc : ℕ → ℤ

abbrev pub pos_part : ℤ → ℕ
pos_part (pos n) = n
pos_part (negsuc n) = 0

abbrev pub neg_part : ℤ → ℕ
neg_part (pos n) = 0
neg_part (negsuc n) = suc n

abbrev pub ltb_ℤ : ℤ → ℤ → Bool
ltb_ℤ a b = ltb (pos_part a + neg_part b) (pos_part b + neg_part a)

-- a - b, as an integer.
abbrev pub sub_ℕ : ℕ → ℕ → ℤ
sub_ℕ a b = if leb b a then pos (a - b) else negsuc (b - a - 1)

infixl 65 ◌+ℤ◌
unfoldable pub ◌+ℤ◌ : ℤ → ℤ → ℤ
a +ℤ b = sub_ℕ (pos_part a + pos_part b) (neg_part a + neg_part b)

pub pos-+ℤ : (a b : ℕ) → pos a +ℤ pos b ≡ pos (a + b)
unfolding ◌+ℤ◌
pos-+ℤ a b = ground arith

-- The conversion of a uint64 to an int64.
unfoldable pub int64 : ℕ → ℤ
int64 n = if ltb n (2 ^ 63) then pos n else negsuc (2 ^ 64 - n - 1)

pub int64-small : (n : ℕ) → n < 2 ^ 63 → int64 n ≡ pos n
unfolding int64
int64-small n h = ground arith

-- Whether an integer is an int64.
abbrev pub is_int64 : ℤ → Bool
is_int64 (pos n) = ltb n (2 ^ 63)
is_int64 (negsuc n) = ltb n (2 ^ 63)

-- An integer brought into the int64s, as sums and products wrap around.
unfoldable pub wrap_int64 : ℤ → ℤ
unfolding int64
wrap_int64 (pos n) = int64 (n % 2 ^ 64)
wrap_int64 (negsuc n) = int64 (2 ^ 64 - 1 - n % 2 ^ 64)

pub wrap_int64-small : (n : ℕ) → n < 2 ^ 63 → wrap_int64 (pos n) ≡ pos n
unfolding wrap_int64 int64
wrap_int64-small n h =
    let small : n < 2 ^ 64 = omega arith in
    let e : n % 2 ^ 64 ≡ n = mod-eq_of_lt small in
    let t : ltb n (2 ^ 63) ≡ true = ground arith in rw (e, t) refl

-- A number below 2 ^ 64 that does not become negative is kept.
pub wrap_int64-pos : (n m : ℕ) → n < 2 ^ 64 → wrap_int64 (pos n) ≡ pos m → n ≡ m
unfolding wrap_int64 int64
wrap_int64-pos n m small h =
    let e : n % 2 ^ 64 ≡ n = mod-eq_of_lt small in
    let k : int64 n ≡ pos m = rw e at h in ground (arith, k)
