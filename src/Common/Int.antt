-- ===== src/Common/Int.antt =====
-- The C++ type `int`, as an integer: the code's sums stay inside its range.
use Prim.Native.Nat.{ℕ, suc, ◌+◌, ◌-◌, ◌≤◌}
use mathlib.Core.Path.{◌≡◌, refl}
use mathlib.Core.Bool.{Bool, true, false, not}
use native.Mathlib.Omega.{arith}
use mikanos_copy.Common.Tests.{ltb, leb, if◌then◌else◌}

-- `negsuc n` is -(n + 1).
pub data ℤ : Type 0 where
  pos negsuc : ℕ → ℤ

unfoldable pub sub_nat : ℕ → ℕ → ℤ
sub_nat m n = if ltb m n then negsuc (n - m - 1) else pos (m - n)

infixl 6 ◌+ℤ◌ ◌-ℤ◌
unfoldable pub ◌+ℤ◌ : ℤ → ℤ → ℤ
unfolding sub_nat
pos m +ℤ pos n = pos (m + n)
pos m +ℤ negsuc n = sub_nat m (suc n)
negsuc m +ℤ pos n = sub_nat n (suc m)
negsuc m +ℤ negsuc n = negsuc (suc (m + n))

unfoldable pub ◌-ℤ◌ : ℤ → ℤ → ℤ
unfolding sub_nat
pos m -ℤ pos n = sub_nat m n
pos m -ℤ negsuc n = pos (m + suc n)
negsuc m -ℤ pos n = negsuc (m + n)
negsuc m -ℤ negsuc n = sub_nat n m

-- `a <= b` and `a < b`.
unfoldable pub le : ℤ → ℤ → Bool
le (pos m) (pos n) = leb m n
le (pos m) (negsuc n) = false
le (negsuc m) (pos n) = true
le (negsuc m) (negsuc n) = leb n m

abbrev pub lt : ℤ → ℤ → Bool
lt a b = not (le b a)

abbrev pub max : ℤ → ℤ → ℤ
max a b = if lt a b then b else a

abbrev pub min : ℤ → ℤ → ℤ
min a b = if lt b a then b else a

-- An integer as a difference of natural numbers, for arithmetic.
unfoldable pub plus : ℤ → ℕ
plus (pos n) = n
plus (negsuc n) = 0

unfoldable pub minus : ℤ → ℕ
minus (pos n) = 0
minus (negsuc n) = suc n

pub add_lem : (a b : ℤ) → plus (a +ℤ b) + minus a + minus b ≡ plus a + plus b + minus (a +ℤ b)
unfolding plus minus ◌+ℤ◌ sub_nat
add_lem (pos m) (pos n) = omega arith
add_lem (pos m) (negsuc n) = ground arith
add_lem (negsuc m) (pos n) = ground arith
add_lem (negsuc m) (negsuc n) = omega arith

pub sub_lem : (a b : ℤ) → plus (a -ℤ b) + minus a + plus b ≡ plus a + minus b + minus (a -ℤ b)
unfolding plus minus ◌-ℤ◌ sub_nat
sub_lem (pos m) (pos n) = ground arith
sub_lem (pos m) (negsuc n) = omega arith
sub_lem (negsuc m) (pos n) = omega arith
sub_lem (negsuc m) (negsuc n) = ground arith

pub le_lem : (a b : ℤ) → le a b ≡ leb (plus a + minus b) (plus b + minus a)
unfolding plus minus le
le_lem (pos m) (pos n) = ground arith
le_lem (pos m) (negsuc n) = ground arith
le_lem (negsuc m) (pos n) = ground arith
le_lem (negsuc m) (negsuc n) = ground arith

pub sub_le : (a b : ℤ) → le b a ≡ true → minus (a -ℤ b) ≡ 0
unfolding minus ◌-ℤ◌ sub_nat le
sub_le (pos m) (pos n) h = ground (arith, h)
sub_le (pos m) (negsuc n) h = ground (arith, h)
sub_le (negsuc m) (pos n) h = ground (arith, h)
sub_le (negsuc m) (negsuc n) h = ground (arith, h)

pub le-add : (a b : ℤ) → minus b ≡ 0 → le a (a +ℤ b) ≡ true
le-add a b h = ground (arith, h, le_lem a (a +ℤ b), add_lem a b)

pub not_negative : (a : ℤ) → minus a ≡ 0 → a ≡ pos (plus a)
unfolding minus plus
not_negative (pos n) h = refl
not_negative (negsuc n) h = absurd (omega (arith, h))

pub not_less : (a : ℤ) → minus a ≤ plus a → minus a ≡ 0
unfolding minus plus
not_less (pos n) h = refl
not_less (negsuc n) h = absurd (omega (arith, h))
