-- ===== src/Base/Bits.antt =====
-- `|` and `&` as arithmetic, for the masks of a subnet: k ones below, or all ones above them.
use Prim.Native.Nat.{ℕ, zero, suc, ◌+◌, ◌-◌, ◌*◌, ◌/◌, ◌%◌, ◌^◌, ◌≤◌, ◌<◌, min, max}
use Prim.Native.Nat.{bit_and, bit_or, digits, bit_and-bitwise, bit_or-bitwise}
use mathlib.Core.Path.{◌≡◌, refl, ap}
use native.Mathlib.Omega.{arith}
use native.Mathlib.Nat.{
  pow-suc, pow-succ', pow-zero, one-le-pow, le_refl, mul_assoc, add-zero, add-suc,
}
use native.Mathlib.Nat.{div-div-eq-div-mul, div-add-mod, mod-eq-sub-mul-div, mod-eq_of_lt}
use native.Mathlib.Nat.{div-lt_iff_lt-mul}

-- Both operations recur on the digits with a count for fuel; any count that is large enough
-- gives the same digits.
same_digits :
    (z : ℕ → ℕ) (f : ℕ → ℕ → ℕ) (n m a b : ℕ) → a ≤ n → a ≤ m → digits z f n a b ≡ digits z f m a b
same_digits z f zero zero zero b p q = refl
same_digits z f zero (suc m) zero b p q = refl
same_digits z f (suc n) zero zero b p q = refl
same_digits z f (suc n) (suc m) zero b p q = refl
same_digits z f zero m (suc a) b p q = absurd (omega arith)
same_digits z f (suc n) zero (suc a) b p q = absurd (omega arith)
same_digits z f (suc n) (suc m) (suc a) b p q =
    ap (λ (d : ℕ). d * 2 + f (suc a % 2) (b % 2))
      (same_digits z f n m (suc a / 2) (b / 2) (omega arith) (omega arith))

-- One equation for the lowest digit of each operation.
pub bit_or_digit : (a b : ℕ) → bit_or a b ≡ bit_or (a / 2) (b / 2) * 2 + max (a % 2) (b % 2)
bit_or_digit zero b = omega (arith, bit_or-bitwise 0 b, bit_or-bitwise 0 (b / 2))
bit_or_digit (suc a) b = omega (
  arith,
  bit_or-bitwise (suc a) b,
  bit_or-bitwise (suc a / 2) (b / 2),
  same_digits (λ y. y) max a (suc a / 2) (suc a / 2) (b / 2) (omega arith) (omega arith),
)

pub bit_and_digit : (a b : ℕ) → bit_and a b ≡ bit_and (a / 2) (b / 2) * 2 + min (a % 2) (b % 2)
bit_and_digit zero b = omega (arith, bit_and-bitwise 0 b, bit_and-bitwise 0 (b / 2))
bit_and_digit (suc a) b = omega (
  arith,
  bit_and-bitwise (suc a) b,
  bit_and-bitwise (suc a / 2) (b / 2),
  same_digits (λ y. 0) min a (suc a / 2) (suc a / 2) (b / 2) (omega arith) (omega arith),
)

-- Zero on the right, for every number with at most n digits.
bit_or-zero_below : (n a : ℕ) → a ≤ n → bit_or a 0 ≡ a
bit_or-zero_below n zero h = refl
bit_or-zero_below zero (suc a) h = absurd (omega arith)
bit_or-zero_below (suc n) (suc a) h =
    omega (arith, bit_or_digit (suc a) 0, bit_or-zero_below n (suc a / 2) (omega arith))

bit_and-zero_below : (n a : ℕ) → a ≤ n → bit_and a 0 ≡ 0
bit_and-zero_below n zero h = refl
bit_and-zero_below zero (suc a) h = absurd (omega arith)
bit_and-zero_below (suc n) (suc a) h =
    omega (arith, bit_and_digit (suc a) 0, bit_and-zero_below n (suc a / 2) (omega arith))

-- `(q << k) | r` is a sum where r has k digits at most.
pub bit_or-shifted : (k q r : ℕ) → r < 2 ^ k → bit_or (q * 2 ^ k) r ≡ q * 2 ^ k + r
bit_or-shifted zero q r h = ground (arith, bit_or-zero_below q q)
bit_or-shifted (suc k) q r h = omega (
  arith,
  bit_or_digit (q * 2 ^ suc k) r,
  pow-suc 2 k,
  ap (λ (t : ℕ). q * t) (pow-suc 2 k),
  ap (λ (t : ℕ). bit_or t (r / 2)) (half q k),
  bit_or-shifted k q (r / 2) (omega (arith, pow-suc 2 k)),
)
  where
    half : (q k : ℕ) → q * 2 ^ suc k / 2 ≡ q * 2 ^ k
    half q k = omega (arith, ap (λ (t : ℕ). q * t) (pow-suc 2 k))

-- `a & (b << k)` keeps the digits of a above the k-th that b has too.
pub bit_and-shifted : (k a b : ℕ) → bit_and a (b * 2 ^ k) ≡ bit_and (a / 2 ^ k) b * 2 ^ k
bit_and-shifted zero a b = ground arith
bit_and-shifted (suc k) a b =
    rw (above, below)
      (omega (
        arith,
        bit_and-shifted k (a / 2) b,
        pow-suc 2 k,
        ap (λ (t : ℕ). bit_and (a / 2 / 2 ^ k) b * t) (pow-suc 2 k),
      ))
  where
    double : b * 2 ^ suc k ≡ b * 2 ^ k * 2
    double = omega (arith, ap (λ (t : ℕ). b * t) (pow-suc 2 k))

    above : bit_and a (b * 2 ^ suc k) ≡ bit_and (a / 2) (b * 2 ^ k) * 2
    above = rw (double, bit_and_digit) (omega (arith, ap (λ (t : ℕ). bit_and (a / 2) t) (halved)))
      where
        halved : b * 2 ^ k * 2 / 2 ≡ b * 2 ^ k
        halved = omega arith

    below : a / 2 ^ suc k ≡ a / 2 / 2 ^ k
    below = rw (div-div-eq-div-mul, pow-succ')

mod_double : (k a : ℕ) → a % 2 ^ suc k ≡ a / 2 % 2 ^ k * 2 + a % 2
mod_double k a = omega (
  arith,
  mod-eq-sub-mul-div a (2 ^ suc k),
  div-add-mod (a / 2) (2 ^ k),
  div-add-mod a (2 ^ suc k),
  div-div-eq-div-mul a 2 (2 ^ k),
  ap (λ (t : ℕ). a / t) (pow-succ' 2 k),
  ap (λ (t : ℕ). t * (a / 2 / 2 ^ k)) (pow-succ' 2 k),
  ap (λ (t : ℕ). 2 ^ suc k * t) quotient,
)
  where
    quotient : a / 2 ^ suc k ≡ a / 2 / 2 ^ k
    quotient = rw (div-div-eq-div-mul, pow-succ')

-- `a & ((1 << k) - 1)` is the remainder.
pub bit_and-ones : (k a : ℕ) → bit_and a (2 ^ k - 1) ≡ a % 2 ^ k
bit_and-ones zero a = omega (arith, bit_and-zero_below a a (le_refl a))
bit_and-ones (suc k) a = omega (
  arith,
  bit_and_digit a (2 ^ suc k - 1),
  ap (λ (t : ℕ). bit_and (a / 2) t) halved,
  bit_and-ones k (a / 2),
  pow-suc 2 k,
  one-le-pow k 2 (omega arith),
  mod_double k a,
)
  where
    halved : (2 ^ suc k - 1) / 2 ≡ 2 ^ k - 1
    halved = omega (arith, pow-suc 2 k, one-le-pow k 2 (omega arith))

pub pow-add : (j k : ℕ) → 2 ^ (j + k) ≡ 2 ^ j * 2 ^ k
pow-add j zero = rw (add-zero, pow-zero) (omega arith)
pow-add j (suc k) = rw (add-suc, pow-suc, pow-suc, pow-add j k) (mul_assoc (2 ^ j) (2 ^ k) 2)

-- The network part of an address under a mask of j ones above k zeros.
pub bit_and-prefix :
    (j k a : ℕ) → a < 2 ^ (j + k) → bit_and a ((2 ^ j - 1) * 2 ^ k) ≡ a / 2 ^ k * 2 ^ k
bit_and-prefix j k a h =
    rw (bit_and-shifted, bit_and-ones)
      (ap (λ (t : ℕ). t * 2 ^ k)
        (mod-eq_of_lt ((div-lt_iff_lt-mul (one-le-pow k 2 (omega arith))).1 small)))
  where
    small : a < 2 ^ j * 2 ^ k
    small = rw (← pow-add j k) h
