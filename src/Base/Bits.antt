-- ===== src/Base/Bits.antt =====
-- The bits of native numbers, by their lowest digits: what setting and clearing the bits of a mask
-- does to them.
use Prim.Native.Nat.{
  ℕ, zero, suc, ◌+◌, ◌-◌, ◌*◌, ◌/◌, ◌%◌, ◌≤◌, min, max, bit_and, bit_or, digits, bit_and-bitwise,
  bit_or-bitwise,
}
use mathlib.Core.Path.{◌≡◌, refl}
use native.Mathlib.Omega.{arith}

module _ (z : ℕ → ℕ) (f : ℕ → ℕ → ℕ) where
  -- Once the count of digits reaches the number, its excess makes no difference.
  digits-enough : (n m a b : ℕ) → a ≤ n → a ≤ m → digits z f n a b ≡ digits z f m a b
  digits-enough zero zero a b p q = refl
  digits-enough zero (suc m) zero b p q = refl
  digits-enough zero (suc m) (suc a) b p q = absurd (omega arith)
  digits-enough (suc n) zero zero b p q = refl
  digits-enough (suc n) zero (suc a) b p q = absurd (omega arith)
  digits-enough (suc n) (suc m) zero b p q = refl
  digits-enough (suc n) (suc m) (suc a) b p q =
      rw (digits-enough n m (suc a / 2) (b / 2) (omega arith) (omega arith)) refl

pub bit_and-digit : (a b : ℕ) → bit_and a b ≡ bit_and (a / 2) (b / 2) * 2 + min (a % 2) (b % 2)
bit_and-digit zero b = omega (arith, bit_and-bitwise 0 b, bit_and-bitwise 0 (b / 2))
bit_and-digit (suc a) b = omega (
  arith,
  bit_and-bitwise (suc a) b,
  bit_and-bitwise (suc a / 2) (b / 2),
  digits-enough (λ _. zero) min a (suc a / 2) (suc a / 2) (b / 2) (omega arith) (omega arith),
)

pub bit_or-digit : (a b : ℕ) → bit_or a b ≡ bit_or (a / 2) (b / 2) * 2 + max (a % 2) (b % 2)
bit_or-digit zero b = omega (arith, bit_or-bitwise 0 b, bit_or-bitwise 0 (b / 2))
bit_or-digit (suc a) b = omega (
  arith,
  bit_or-bitwise (suc a) b,
  bit_or-bitwise (suc a / 2) (b / 2),
  digits-enough (λ b. b) max a (suc a / 2) (suc a / 2) (b / 2) (omega arith) (omega arith),
)

bit_and-zero : (b : ℕ) → bit_and 0 b ≡ 0
bit_and-zero b = bit_and-bitwise 0 b

bit_and_le_fuel : (n a b : ℕ) → a ≤ n → bit_and a b ≤ a
bit_and_le_fuel n zero b h = omega (arith, bit_and-zero b)
bit_and_le_fuel zero (suc a) b h = absurd (omega arith)
bit_and_le_fuel (suc n) (suc a) b h =
    omega (arith, bit_and-digit (suc a) b, bit_and_le_fuel n (suc a / 2) (b / 2) (omega arith))

bit_and-bit_or_fuel : (n x o : ℕ) → x ≤ n → o ≤ n → bit_and (bit_or x o) o ≡ o
bit_and-bit_or_fuel zero zero zero h k = refl
bit_and-bit_or_fuel zero zero (suc o) h k = absurd (omega arith)
bit_and-bit_or_fuel zero (suc x) o h k = absurd (omega arith)
bit_and-bit_or_fuel (suc n) x o h k =
    let half : bit_or x o / 2 ≡ bit_or (x / 2) (o / 2) = omega (arith, bit_or-digit x o) in
    let ih : bit_and (bit_or x o / 2) (o / 2) ≡ o / 2 =
      rw half (bit_and-bit_or_fuel n (x / 2) (o / 2) (omega arith) (omega arith)) in
    omega (arith, ih, bit_and-digit (bit_or x o) o, bit_or-digit x o)

-- Setting the bits of a mask sets them.
pub bit_and-bit_or : (x o : ℕ) → bit_and (bit_or x o) o ≡ o
bit_and-bit_or x o = bit_and-bit_or_fuel (x + o) x o (omega arith) (omega arith)

bit_and-clear_fuel : (n x o : ℕ) → x ≤ n → bit_and (x - bit_and x o) o ≡ 0
bit_and-clear_fuel n zero o h = rw (bit_and-zero o) (bit_and-zero o)
bit_and-clear_fuel zero (suc x) o h = absurd (omega arith)
bit_and-clear_fuel (suc n) (suc x) o h =
    let a = suc x in
    let rest = a - bit_and a o in
    let digit = bit_and-digit a o in
    let le = bit_and_le_fuel n (a / 2) (o / 2) (omega arith) in
    let half : rest / 2 ≡ a / 2 - bit_and (a / 2) (o / 2) = omega (arith, digit, le) in
    let ih : bit_and (rest / 2) (o / 2) ≡ 0 =
      rw half (bit_and-clear_fuel n (a / 2) (o / 2) (omega arith)) in
    omega (arith, ih, digit, le, bit_and-digit rest o)

-- Clearing the bits of a mask clears them.
pub bit_and-clear : (x o : ℕ) → bit_and (x - bit_and x o) o ≡ 0
bit_and-clear x o = bit_and-clear_fuel x x o (omega arith)
