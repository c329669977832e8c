-- ===== src/Base/Bits.antt =====
-- Laws of `&`, `|` and `^` at variables: the lowest digit and the other digits of a result, and
-- what follows by induction on the digits.
use Prim.Native.Nat.{
  ℕ, zero, suc, ◌+◌, ◌*◌, ◌/◌, ◌%◌, ◌≤◌, ◌<◌, min, max, bit_and, bit_or, bit_xor, digits, bitwise,
  differ, bit_and-bitwise, bit_or-bitwise, bit_xor-bitwise,
}
use mathlib.Core.Path.{◌≡◌, refl, ◌∙◌, ap}
use native.Mathlib.Omega.{arith}

-- Fuel beyond the first number changes nothing.
module _ (other : ℕ → ℕ) (op : ℕ → ℕ → ℕ) where
  enough : (p q x y : ℕ) → x ≤ p → x ≤ q → digits other op p x y ≡ digits other op q x y
  enough zero zero zero y hp hq = refl
  enough zero (suc q) zero y hp hq = refl
  enough (suc p) zero zero y hp hq = refl
  enough (suc p) (suc q) zero y hp hq = refl
  enough zero q (suc x) y hp hq = absurd (omega arith)
  enough (suc p) zero (suc x) y hp hq = absurd (omega arith)
  enough (suc p) (suc q) (suc x) y hp hq =
      rw (enough p q (suc x / 2) (y / 2) (omega arith) (omega arith)) refl

  bitwise_step :
      (x y : ℕ)
      → bitwise other op (suc x) y
        ≡ bitwise other op (suc x / 2) (y / 2) * 2 + op (suc x % 2) (y % 2)
  bitwise_step x y =
      ap (λ (t : ℕ). t * 2 + op (suc x % 2) (y % 2))
        (enough x (suc x / 2) (suc x / 2) (y / 2) (omega arith) (omega arith))

pub bit_or_digit : (x y : ℕ) → bit_or x y ≡ bit_or (x / 2) (y / 2) * 2 + max (x % 2) (y % 2)
bit_or_digit zero y = omega (arith, bit_or-bitwise zero y, bit_or-bitwise (zero / 2) (y / 2))
bit_or_digit (suc x) y = omega (
  arith,
  bit_or-bitwise (suc x) y,
  bit_or-bitwise (suc x / 2) (y / 2),
  bitwise_step (λ b. b) max x y,
)

bit_and_digit : (x y : ℕ) → bit_and x y ≡ bit_and (x / 2) (y / 2) * 2 + min (x % 2) (y % 2)
bit_and_digit zero y = omega (arith, bit_and-bitwise zero y, bit_and-bitwise (zero / 2) (y / 2))
bit_and_digit (suc x) y = omega (
  arith,
  bit_and-bitwise (suc x) y,
  bit_and-bitwise (suc x / 2) (y / 2),
  bitwise_step (λ b. 0) min x y,
)

digit_differ : (x y : ℕ) → differ (x % 2) (y % 2) ≡ (x + y) % 2
digit_differ x y = below (x % 2) (y % 2) (omega arith) (omega arith) ∙ omega arith
  where
    below : (a b : ℕ) → a < 2 → b < 2 → differ a b ≡ (a + b) % 2
    below zero b ha hb = omega arith
    below (suc zero) zero ha hb = refl
    below (suc zero) (suc zero) ha hb = refl
    below (suc a) (suc (suc b)) ha hb = absurd (omega arith)
    below (suc (suc a)) b ha hb = absurd (omega arith)

pub bit_xor_digit : (x y : ℕ) → bit_xor x y ≡ bit_xor (x / 2) (y / 2) * 2 + (x + y) % 2
bit_xor_digit zero y = omega (arith, bit_xor-bitwise zero y, bit_xor-bitwise (zero / 2) (y / 2))
bit_xor_digit (suc x) y = omega (
  arith,
  bit_xor-bitwise (suc x) y,
  bit_xor-bitwise (suc x / 2) (y / 2),
  bitwise_step (λ b. b) differ x y,
  digit_differ (suc x) y,
)

-- The halves and the lowest digits of results.
pub half-bit_and : (x y : ℕ) → bit_and x y / 2 ≡ bit_and (x / 2) (y / 2)
half-bit_and x y = omega (arith, bit_and_digit x y)

pub half-bit_or : (x y : ℕ) → bit_or x y / 2 ≡ bit_or (x / 2) (y / 2)
half-bit_or x y = omega (arith, bit_or_digit x y)

pub half-bit_xor : (x y : ℕ) → bit_xor x y / 2 ≡ bit_xor (x / 2) (y / 2)
half-bit_xor x y = omega (arith, bit_xor_digit x y)

pub low-bit_and : (x y : ℕ) → bit_and x y % 2 ≡ min (x % 2) (y % 2)
low-bit_and x y = omega (arith, bit_and_digit x y)

pub low-bit_or : (x y : ℕ) → bit_or x y % 2 ≡ max (x % 2) (y % 2)
low-bit_or x y = omega (arith, bit_or_digit x y)

pub low-bit_xor : (x y : ℕ) → bit_xor x y % 2 ≡ (x + y) % 2
low-bit_xor x y = omega (arith, bit_xor_digit x y)

pub by_digits : (x y : ℕ) → x / 2 ≡ y / 2 → x % 2 ≡ y % 2 → x ≡ y
by_digits x y h l = omega arith
