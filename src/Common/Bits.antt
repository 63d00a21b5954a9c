-- ===== src/Common/Bits.antt =====
-- The bits of a machine word, and what `|`, `&`, `~` and `1 << n` do to each of them.
use Prim.Native.Nat.{
  ℕ, zero, suc, ◌+◌, ◌-◌, ◌*◌, ◌/◌, ◌%◌, ◌^◌, ◌≤◌, ◌<◌, min, max, bit_and, bit_or, digits,
  bit_and-bitwise, bit_or-bitwise,
}
use mathlib.Core.Path.{◌≡◌, refl, ap, ◌∙◌}
use native.Mathlib.Nat.{pow-suc, one-le-pow, mod-eq_of_lt, pow-le-pow_right, zero-mul, suc-mul}
use native.Mathlib.Omega.{arith}
use mikanos_copy.Common.Tests.{◌==◌, if◌then◌else◌}

-- `1 << n` on a 64-bit word.
abbrev pub shl_one : ℕ → ℕ
shl_one n = 2 ^ n % 2 ^ 64

-- `~x` on a 64-bit word.
abbrev pub complement64 : ℕ → ℕ
complement64 x = 2 ^ 64 - 1 - x

-- The bit of weight `2 ^ i`.
unfoldable pub bit_at : ℕ → ℕ → ℕ
bit_at x zero = x % 2
bit_at x (suc i) = bit_at (x / 2) i

-- One digit of each operation, from the library's definition by digits.
module _ (z : ℕ → ℕ) (f : ℕ → ℕ → ℕ) where
  fuel_irrelevant : (n m a b : ℕ) → a ≤ n → a ≤ m → digits z f n a b ≡ digits z f m a b
  fuel_irrelevant zero zero a b p q = refl
  fuel_irrelevant zero (suc m) zero b p q = refl
  fuel_irrelevant zero (suc m) (suc a) b p q = absurd (omega arith)
  fuel_irrelevant (suc n) zero zero b p q = refl
  fuel_irrelevant (suc n) zero (suc a) b p q = absurd (omega arith)
  fuel_irrelevant (suc n) (suc m) zero b p q = refl
  fuel_irrelevant (suc n) (suc m) (suc a) b p q =
      omega (arith, fuel_irrelevant n m (suc a / 2) (b / 2) (omega arith) (omega arith))

pub bit_or_digit : (a b : ℕ) → bit_or a b ≡ bit_or (a / 2) (b / 2) * 2 + max (a % 2) (b % 2)
bit_or_digit zero b = omega (arith, bit_or-bitwise 0 b, bit_or-bitwise (0 / 2) (b / 2))
bit_or_digit (suc a) b = omega (
  arith,
  bit_or-bitwise (suc a) b,
  bit_or-bitwise (suc a / 2) (b / 2),
  fuel_irrelevant (λ y. y) max a (suc a / 2) (suc a / 2) (b / 2) (omega arith) (omega arith),
)

pub bit_and_digit : (a b : ℕ) → bit_and a b ≡ bit_and (a / 2) (b / 2) * 2 + min (a % 2) (b % 2)
bit_and_digit zero b = omega (arith, bit_and-bitwise 0 b, bit_and-bitwise (0 / 2) (b / 2))
bit_and_digit (suc a) b = omega (
  arith,
  bit_and-bitwise (suc a) b,
  bit_and-bitwise (suc a / 2) (b / 2),
  fuel_irrelevant (λ y. 0) min a (suc a / 2) (suc a / 2) (b / 2) (omega arith) (omega arith),
)

pub bit_at-lt : (x i : ℕ) → bit_at x i < 2
unfolding bit_at
bit_at-lt x zero = omega arith
bit_at-lt x (suc i) = bit_at-lt (x / 2) i

pub bit_at-bit_or : (x y i : ℕ) → bit_at (bit_or x y) i ≡ max (bit_at x i) (bit_at y i)
unfolding bit_at
bit_at-bit_or x y zero = omega (arith, bit_or_digit x y)
bit_at-bit_or x y (suc i) = ap (λ t. bit_at t i) half ∙ bit_at-bit_or (x / 2) (y / 2) i
  where
    half : bit_or x y / 2 ≡ bit_or (x / 2) (y / 2)
    half = omega (arith, bit_or_digit x y)

pub bit_at-bit_and : (x y i : ℕ) → bit_at (bit_and x y) i ≡ min (bit_at x i) (bit_at y i)
unfolding bit_at
bit_at-bit_and x y zero = omega (arith, bit_and_digit x y)
bit_at-bit_and x y (suc i) = ap (λ t. bit_at t i) half ∙ bit_at-bit_and (x / 2) (y / 2) i
  where
    half : bit_and x y / 2 ≡ bit_and (x / 2) (y / 2)
    half = omega (arith, bit_and_digit x y)

pub bit_at-zero : (i : ℕ) → bit_at 0 i ≡ 0
unfolding bit_at
bit_at-zero zero = refl
bit_at-zero (suc i) = bit_at-zero i

pub bit_at-pow : (n i : ℕ) → bit_at (2 ^ n) i ≡ (if n == i then 1 else 0)
unfolding bit_at
bit_at-pow zero zero = refl
bit_at-pow zero (suc i) = bit_at-zero i ∙ ground arith
bit_at-pow (suc n) zero = ground (arith, pow-suc 2 n)
bit_at-pow (suc n) (suc i) = ap (λ t. bit_at t i) half ∙ bit_at-pow n i ∙ ground arith
  where
    half : 2 ^ suc n / 2 ≡ 2 ^ n
    half = omega (arith, pow-suc 2 n)

-- `~` turns every bit of a word of `n` bits.
pub bit_at-complement : (n x i : ℕ) → x < 2 ^ n → i < n → bit_at (2 ^ n - 1 - x) i + bit_at x i ≡ 1
unfolding bit_at
bit_at-complement zero x i h k = absurd (omega arith)
bit_at-complement (suc n) x zero h k = omega (arith, pow-suc 2 n, one-le-pow n 2)
bit_at-complement (suc n) x (suc i) h k =
    ap (λ t. bit_at t i + bit_at (x / 2) i) half
    ∙ bit_at-complement n (x / 2) i (omega (arith, pow-suc 2 n)) (omega arith)
  where
    half : (2 ^ suc n - 1 - x) / 2 ≡ 2 ^ n - 1 - x / 2
    half = omega (arith, pow-suc 2 n, one-le-pow n 2)

-- Masking by a single bit leaves something exactly when that bit is set.
pub bit_and-zero : (n x : ℕ) → x ≤ n → bit_and x 0 ≡ 0
bit_and-zero n zero h = omega (arith, bit_and-bitwise 0 0)
bit_and-zero zero (suc x) h = absurd (omega arith)
bit_and-zero (suc n) (suc x) h =
    omega (arith, bit_and_digit (suc x) 0, bit_and-zero n (suc x / 2) (omega arith))

pub bit_and-pow : (x n : ℕ) → bit_and x (2 ^ n) ≡ bit_at x n * 2 ^ n
unfolding bit_at
bit_and-pow x zero = omega (arith, bit_and_digit x 1, bit_and-zero (x / 2) (x / 2) (omega arith))
bit_and-pow x (suc n) = omega (
  arith,
  bit_and_digit x (2 ^ suc n),
  ap (λ t. bit_and (x / 2) t) half,
  bit_and-pow (x / 2) n,
  pow-suc 2 n,
  ap (λ t. bit_at (x / 2) n * t) (pow-suc 2 n),
)
  where
    half : 2 ^ suc n / 2 ≡ 2 ^ n
    half = omega (arith, pow-suc 2 n)

pub pow-pos : (n : ℕ) → 0 < 2 ^ n
pow-pos n = one-le-pow n 2 (omega arith)

weighted_test : (d p : ℕ) → 0 < p → (d * p == 0) ≡ (d == 0)
weighted_test zero p h = ground (arith, zero-mul p)
weighted_test (suc d) p h = ground (arith, suc-mul d p)

-- The three operations of the source at one bit `b` of a 64-bit word.
module _ (w b : ℕ) (small : b < 64) where
  pub shl_one-pow : shl_one b ≡ 2 ^ b
  shl_one-pow =
      mod-eq_of_lt (below (pow-le-pow_right {n = 2} (omega arith) {i = b} {j = 63} (omega arith)))
    where
      below : 2 ^ b ≤ 2 ^ 63 → 2 ^ b < 2 ^ 64
      below h = omega arith

  pub bit_at-set : (i : ℕ) → bit_at (bit_or w (shl_one b)) i ≡ (if b == i then 1 else bit_at w i)
  bit_at-set i =
      rw (shl_one-pow, bit_at-bit_or w (2 ^ b) i, bit_at-pow b i) (ground (arith, bit_at-lt w i))

  pub bit_at-clear :
      (i : ℕ)
      → i < 64
      → bit_at (bit_and w (complement64 (shl_one b))) i ≡ (if b == i then 0 else bit_at w i)
  bit_at-clear i h =
      rw (shl_one-pow, bit_at-bit_and w (complement64 (2 ^ b)) i)
        (ground (arith, bit_at-lt w i, bit_at-pow b i, bit_at-complement 64 (2 ^ b) i fits h))
    where
      fits : 2 ^ b < 2 ^ 64
      fits = omega (arith, pow-le-pow_right {n = 2} (omega arith) {i = b} {j = 63} (omega arith))

  pub bit_and-test : (bit_and w (shl_one b) == 0) ≡ (bit_at w b == 0)
  bit_and-test = rw (shl_one-pow, bit_and-pow w b) (weighted_test (bit_at w b) (2 ^ b) (pow-pos b))
