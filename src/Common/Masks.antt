-- ===== src/Common/Masks.antt =====
-- `x & mask` for a mask that is one run of bits, and the rounding of an address to a power of two.
use Prim.Native.Nat.{
  ℕ, zero, suc, ◌+◌, ◌-◌, ◌*◌, ◌/◌, ◌%◌, ◌^◌, ◌≤◌, ◌<◌, bit_and, bit_or, bit_or-bitwise,
}
use mathlib.Core.Path.{◌≡◌, sym, ap, ◌∙◌}
use native.Mathlib.Nat.{
  pow-suc, mod-eq_of_lt, mod-lt, div-add-mod, mul-add-mod_self_left, mul_assoc, mul-mod_right,
  add-mod_right,
}
use mathlib.Core.Logic.{◌≢◌}
use native.Mathlib.Decide.{ℕ_discrete}
use native.Mathlib.Omega.{arith}
use mikanos_copy.Common.Bits.{bit_or_digit, bit_and_digit, bit_and-zero, pow-pos}

-- The last digit of a remainder by an even number.
mod_double : (x m : ℕ) → 0 < m → x % (2 * m) ≡ x / 2 % m * 2 + x % 2
mod_double x m h =
    ap (λ t. t % (2 * m)) whole
    ∙ mul-add-mod_self_left (2 * m) (x / 2 / m) (x / 2 % m * 2 + x % 2)
    ∙ mod-eq_of_lt (omega (arith, mod-lt (x / 2) h))
  where
    whole : x ≡ 2 * m * (x / 2 / m) + (x / 2 % m * 2 + x % 2)
    whole = omega (arith, div-add-mod (x / 2) m, mul_assoc 2 m (x / 2 / m))

mod-pow_suc : (x n : ℕ) → x % 2 ^ suc n ≡ x / 2 % 2 ^ n * 2 + x % 2
mod-pow_suc x n = ap (λ t. x % t) (omega (arith, pow-suc 2 n)) ∙ mod_double x (2 ^ n) (pow-pos n)

-- All bits from `k` up to `n`.
pub bit_and-run : (n k x : ℕ) → k ≤ n → bit_and x (2 ^ n - 2 ^ k) + x % 2 ^ k ≡ x % 2 ^ n
bit_and-run zero zero x h = omega (arith, bit_and-zero x x (omega arith))
bit_and-run (suc n) zero x h = omega (
  arith,
  bit_and_digit x (2 ^ suc n - 1),
  ap (λ t. bit_and (x / 2) t) half,
  bit_and-run n zero (x / 2) (omega arith),
  mod-pow_suc x n,
  pow-suc 2 n,
  pow-pos n,
)
  where
    half : (2 ^ suc n - 1) / 2 ≡ 2 ^ n - 1
    half = omega (arith, pow-suc 2 n, pow-pos n)
bit_and-run zero (suc k) x h = absurd (omega (arith, h))
bit_and-run (suc n) (suc k) x h = omega (
  arith,
  bit_and_digit x (2 ^ suc n - 2 ^ suc k),
  ap (λ t. bit_and (x / 2) t) half,
  bit_and-run n k (x / 2) (omega (arith, h)),
  mod-pow_suc x n,
  mod-pow_suc x k,
  pow-suc 2 n,
  pow-suc 2 k,
)
  where
    half : (2 ^ suc n - 2 ^ suc k) / 2 ≡ 2 ^ n - 2 ^ k
    half = omega (arith, pow-suc 2 n, pow-suc 2 k)

-- `(value + alignment - 1) & ~(alignment - 1)` and `value & ~(mask - 1)` on words of 64 bits.
unfoldable pub ceil : ℕ → ℕ → ℕ
ceil value alignment = bit_and ((value + alignment - 1) % 2 ^ 64) (2 ^ 64 - 1 - (alignment - 1))

-- What rounding up to `2 ^ k` gives: the least multiple that is not below the value.
module _ (k value : ℕ) (small : k ≤ 63) (fits : value + 2 ^ k ≤ 2 ^ 64) where
  sum_fits : (value + 2 ^ k - 1) % 2 ^ 64 ≡ value + 2 ^ k - 1
  sum_fits = omega (arith, fits, pow-pos k)

  pub ceil_lem : ceil value (2 ^ k) + (value + 2 ^ k - 1) % 2 ^ k ≡ value + 2 ^ k - 1
  unfolding ceil
  ceil_lem = rw sum_fits (
      ap (λ t. bit_and (value + 2 ^ k - 1) t + (value + 2 ^ k - 1) % 2 ^ k)
        (omega (arith, pow-pos k, fits))
      ∙ bit_and-run 64 k (value + 2 ^ k - 1) (omega (arith, small))
      ∙ sum_fits)

  pub le-ceil : value ≤ ceil value (2 ^ k)
  le-ceil = omega (arith, ceil_lem, mod-lt (value + 2 ^ k - 1) (pow-pos k), pow-pos k)

  pub ceil-lt : ceil value (2 ^ k) < value + 2 ^ k
  ceil-lt = omega (arith, ceil_lem, pow-pos k)

  pub ceil-mod : ceil value (2 ^ k) % 2 ^ k ≡ 0
  ceil-mod =
      ap (λ t. t % 2 ^ k) (omega (arith, ceil_lem, div-add-mod (value + 2 ^ k - 1) (2 ^ k)))
      ∙ mul-mod_right (2 ^ k) ((value + 2 ^ k - 1) / 2 ^ k)

zero-add : (a : ℕ) → 0 + a ≡ a
zero-add a = omega arith

suc-add : (n a : ℕ) → suc n + a ≡ suc (n + a)
suc-add n a = omega arith

pub pow-add : (a d : ℕ) → 2 ^ (d + a) ≡ 2 ^ a * 2 ^ d
pow-add a zero = omega (arith, ap (λ t. 2 ^ t) (zero-add a))
pow-add a (suc d) = omega (
  arith,
  ap (λ t. 2 ^ t) (suc-add d a),
  pow-suc 2 (d + a),
  pow-add a d,
  ap (λ t. 2 ^ a * t) (pow-suc 2 d),
  mul_assoc (2 ^ a) (2 ^ d) 2,
)

-- A multiple of a power of two is one of each smaller power.
pub mod-pow_zero : (x a b : ℕ) → a ≤ b → x % 2 ^ b ≡ 0 → x % 2 ^ a ≡ 0
mod-pow_zero x a b h e =
    ap (λ t. t % 2 ^ a) whole ∙ mul-mod_right (2 ^ a) (2 ^ (b - a) * (x / 2 ^ b))
  where
    split : 2 ^ b ≡ 2 ^ a * 2 ^ (b - a)
    split = ap (λ t. 2 ^ t) (omega (arith, h)) ∙ pow-add a (b - a)

    whole : x ≡ 2 ^ a * (2 ^ (b - a) * (x / 2 ^ b))
    whole = omega (
      arith,
      e,
      div-add-mod x (2 ^ b),
      ap (λ t. t * (x / 2 ^ b)) split,
      mul_assoc (2 ^ a) (2 ^ (b - a)) (x / 2 ^ b),
    )

-- A place just before a multiple of `m`, in the block that ends there.
pub mod_before : (m p size end : ℕ) → end % m ≡ 0 → end < p + m → p + size ≤ end → p % m + size ≤ m
mod_before m p size end e near room = elim (ℕ_discrete p end) [
  | yes same ↦ omega (arith, ap (λ t. t % m) same, e, room, same, near)
  | no apart ↦ omega (arith, rest apart, room, near)
]
  where
    r : ℕ
    r = p + m - end

    place : p + m ≡ m * (end / m) + r
    place = omega (arith, div-add-mod end m, e, near, room)

    rest : p ≢ end → p % m ≡ r
    rest ne =
        sym (add-mod_right p m)
        ∙ ap (λ t. t % m) place
        ∙ mul-add-mod_self_left m (end / m) r
        ∙ mod-eq_of_lt (omega (arith, ne, room))

bit_or-zero : (n a : ℕ) → a ≤ n → bit_or a 0 ≡ a
bit_or-zero zero zero h = omega (arith, bit_or-bitwise 0 0)
bit_or-zero zero (suc a) h = absurd (omega (arith, h))
bit_or-zero (suc n) zero h = omega (arith, bit_or-bitwise 0 0)
bit_or-zero (suc n) (suc a) h =
    omega (arith, bit_or_digit (suc a) 0, bit_or-zero n (suc a / 2) (omega (arith, h)))

-- `a | b` is a sum when `b` lies below the bits of `a`.
pub bit_or-add : (k a b : ℕ) → a % 2 ^ k ≡ 0 → b < 2 ^ k → bit_or a b ≡ a + b
bit_or-add zero a b h l =
    ap (λ t. bit_or a t) (omega (arith, l)) ∙ bit_or-zero a a (omega arith) ∙ omega (arith, l)
bit_or-add (suc k) a b h l = omega (
  arith,
  bit_or_digit a b,
  mod-pow_suc a k,
  pow-suc 2 k,
  h,
  bit_or-add k (a / 2) (b / 2) (omega (arith, mod-pow_suc a k, h)) (omega (arith, l, pow-suc 2 k)),
)
