-- ===== src/Base/Bits.antt =====
-- `|` of disjoint fields and masks on one byte, as arithmetic.
use Prim.Native.Nat.{
  ℕ, zero, suc, ◌+◌, ◌*◌, ◌/◌, ◌%◌, ◌^◌, ◌≤◌, ◌<◌, min, max, bit_and, bit_or, digits,
  bit_and-bitwise, bit_or-bitwise,
}
use mathlib.Core.Path.{◌≡◌, refl, ap}
use mathlib.Core.Bool.{Bool, true, false}
use native.Mathlib.Omega.{arith}
use native.Mathlib.Decide.{ℕ_discrete}
use native.Mathlib.Nat.{pow-suc, le_refl}
use mathlib.Core.Logic.{ite}

-- The fuel of the digit recursion does not matter once it reaches the first number.
module _ (z : ℕ → ℕ) (f : ℕ → ℕ → ℕ) where
  enough_digits : (b a n m : ℕ) → (a ≤ n) × (a ≤ m) → digits z f n a b ≡ digits z f m a b
  enough_digits b (suc a) (suc n) (suc m) (le, le') =
      rw (enough_digits (b / 2) (suc a / 2) n m (omega (arith, le), omega (arith, le'))) refl
  enough_digits b (suc a) n zero (le, le') = absurd (omega (arith, le'))
  enough_digits b (suc a) zero (suc m) (le, le') = absurd (omega (arith, le))
  enough_digits b zero (suc n) (suc m) both = refl
  enough_digits b zero (suc n) zero both = refl
  enough_digits b zero zero (suc m) both = refl
  enough_digits b zero zero zero both = refl

bit_or_digit : (a b : ℕ) → bit_or a b ≡ bit_or (a / 2) (b / 2) * 2 + max (a % 2) (b % 2)
bit_or_digit zero b = omega (arith, bit_or-bitwise 0 b, bit_or-bitwise 0 (b / 2))
bit_or_digit (suc a) b = omega (
  arith,
  bit_or-bitwise (suc a) b,
  bit_or-bitwise (suc a / 2) (b / 2),
  enough_digits (λ y. y) max (b / 2) (suc a / 2) a (suc a / 2) (omega arith, le_refl _),
)

bit_and_digit : (a b : ℕ) → bit_and a b ≡ bit_and (a / 2) (b / 2) * 2 + min (a % 2) (b % 2)
bit_and_digit zero b = omega (arith, bit_and-bitwise 0 b, bit_and-bitwise 0 (b / 2))
bit_and_digit (suc a) b = omega (
  arith,
  bit_and-bitwise (suc a) b,
  bit_and-bitwise (suc a / 2) (b / 2),
  enough_digits (λ y. 0) min (b / 2) (suc a / 2) a (suc a / 2) (omega arith, le_refl _),
)

zero-bit_or : (b : ℕ) → bit_or 0 b ≡ b
zero-bit_or b = omega (arith, bit_or-bitwise 0 b)

scale_suc : (q k : ℕ) → q * 2 ^ suc k ≡ 2 * (q * 2 ^ k)
scale_suc q k = omega (arith, ap (λ (t : ℕ). q * t) (pow-suc 2 k))

-- `r | (q << k)` is a sum when `r` fits `k` bits.
pub bit_or_shifted : (k r q : ℕ) → r < 2 ^ k → bit_or r (q * 2 ^ k) ≡ r + q * 2 ^ k
bit_or_shifted zero r q fits = ground (arith, zero-bit_or q)
bit_or_shifted (suc k) r q fits = ground (
  arith,
  bit_or_digit r (q * 2 ^ suc k),
  scale_suc q k,
  pow-suc 2 k,
  bit_or_shifted k (r / 2) q (omega (arith, pow-suc 2 k)),
)

bit_and_zero : (n a : ℕ) → a ≤ n → bit_and a 0 ≡ 0
bit_and_zero n zero h = refl
bit_and_zero zero (suc a) h = absurd (omega arith)
bit_and_zero (suc n) (suc a) h =
    omega (arith, bit_and_digit (suc a) 0, bit_and_zero n (suc a / 2) (omega arith))

-- A mask of low ones is a remainder; the source masks 7 bits of a wide number.
bit_and_one : (a : ℕ) → bit_and a 1 ≡ a % 2
bit_and_one a = omega (arith, bit_and_digit a 1, bit_and_zero (a / 2) (a / 2) (le_refl _))

bit_and_three : (a : ℕ) → bit_and a 3 ≡ a % 4
bit_and_three a = omega (arith, bit_and_digit a 3, bit_and_one (a / 2))

bit_and_fifteen : (a : ℕ) → bit_and a 15 ≡ a % 16
bit_and_fifteen a =
    omega (arith, bit_and_digit a 15, bit_and_digit (a / 2) 7, bit_and_three (a / 2 / 2))

pub low_seven : (a : ℕ) → bit_and a 0x7f ≡ a % 128
low_seven a = omega (
  arith,
  bit_and_digit a 127,
  bit_and_digit (a / 2) 63,
  bit_and_digit (a / 2 / 2) 31,
  bit_and_fifteen (a / 2 / 2 / 2),
)

-- A law for one byte, checked at each value.
module _ (f g : ℕ → ℕ) where
  same_below : ℕ → Bool
  unfolding ℕ_discrete
  same_below zero = true
  same_below (suc n) = ite (ℕ_discrete (f n) (g n)) (same_below n) false

  same_below→eq : (n : ℕ) → same_below n ≡ true → (i : ℕ) → i < n → f i ≡ g i
  unfolding same_below
  same_below→eq zero e i h = absurd (omega arith)
  same_below→eq (suc n) e i h = ground (arith, same_below→eq n (ground arith) i)

pub top_bit : (b : ℕ) → b < 256 → bit_and b 0x80 ≡ b / 128 * 128
unfolding same_below
top_bit = same_below→eq _ _ 256 refl

pub sign_bit : (b : ℕ) → b < 128 → bit_and b 0x40 ≡ b / 64 * 64
unfolding same_below
sign_bit = same_below→eq _ _ 128 refl

pub set_top_bit : (b : ℕ) → b < 128 → bit_or b 0x80 ≡ b + 128
unfolding same_below
set_top_bit = same_below→eq _ _ 128 refl

-- `hi<<4 | lo` on the two halves of a byte.
pub join_nibbles : (b : ℕ) → b < 256 → bit_or (b / 16 * 16 % 256) (b % 16) ≡ b
unfolding same_below
join_nibbles = same_below→eq (λ b. bit_or (b / 16 * 16 % 256) (b % 16)) (λ b. b) 256 refl
