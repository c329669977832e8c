-- ===== src/Sha/Fips/Words.antt =====
-- The functions on words that sha1sum.c and sha256.c write in another way than the standard.
use Prim.Native.Nat.{ℕ, zero, suc, ◌+◌, ◌-◌, ◌*◌, ◌/◌, ◌%◌, ◌^◌, ◌≤◌, ◌<◌, bit_and, bit_or, bit_xor}
use mathlib.Core.Path.{◌≡◌, refl, ◌∙◌, sym}
use native.Mathlib.Nat.{pow-suc, one-le-pow}
use native.Mathlib.Omega.{arith}
use secure_kernel_loader.Base.Bits.{
  bit_or_digit, bit_xor_digit, half-bit_and, half-bit_or, half-bit_xor, low-bit_and, low-bit_or,
  low-bit_xor, by_digits,
}

-- The choice of SHA as the source writes it, and as FIPS 180 does with the complement c of x.
abbrev choice : ℕ → ℕ → ℕ → ℕ
choice x y z = bit_xor z (bit_and x (bit_xor y z))

abbrev choice_fips : ℕ → ℕ → ℕ → ℕ → ℕ
choice_fips x c y z = bit_xor (bit_and x y) (bit_and c z)

half-choice : (x y z : ℕ) → choice x y z / 2 ≡ choice (x / 2) (y / 2) (z / 2)
half-choice x y z =
    rw (half-bit_xor z (bit_and x (bit_xor y z)), half-bit_and x (bit_xor y z), half-bit_xor y z)
      refl

half-choice_fips :
    (x c y z : ℕ) → choice_fips x c y z / 2 ≡ choice_fips (x / 2) (c / 2) (y / 2) (z / 2)
half-choice_fips x c y z =
    rw (half-bit_xor (bit_and x y) (bit_and c z), half-bit_and x y, half-bit_and c z) refl

low-choice : (x c y z : ℕ) → x % 2 + c % 2 ≡ 1 → choice x y z % 2 ≡ choice_fips x c y z % 2
low-choice x c y z e = omega (
  arith,
  low-bit_xor z (bit_and x (bit_xor y z)),
  low-bit_and x (bit_xor y z),
  low-bit_xor y z,
  low-bit_xor (bit_and x y) (bit_and c z),
  low-bit_and x y,
  low-bit_and c z,
)

double : (w : ℕ) → 2 ^ suc w ≡ 2 * 2 ^ w
double w = omega (arith, pow-suc 2 w)

-- On numbers of w bits they agree.
pub choice_lem :
    (w x c y z : ℕ) → x + c ≡ 2 ^ w - 1 → y < 2 ^ w → z < 2 ^ w → choice x y z ≡ choice_fips x c y z
choice_lem zero zero zero zero zero hx hy hz = refl
choice_lem zero (suc x) c y z hx hy hz = absurd (omega arith)
choice_lem zero zero (suc c) y z hx hy hz = absurd (omega arith)
choice_lem zero zero zero (suc y) z hx hy hz = absurd (omega arith)
choice_lem zero zero zero zero (suc z) hx hy hz = absurd (omega arith)
choice_lem (suc w) x c y z hx hy hz =
    by_digits _ _
      (half-choice x y z
        ∙ (choice_lem w (x / 2) (c / 2) (y / 2) (z / 2) (omega (arith, double w, one-le-pow w 2))
              (omega (arith, double w)) (omega (arith, double w))
            ∙ sym (half-choice_fips x c y z)))
      (low-choice x c y z (omega (arith, double w, one-le-pow w 2)))

-- The majority of SHA as the source writes it, and as FIPS 180 does.
abbrev majority : ℕ → ℕ → ℕ → ℕ
majority x y z = bit_or (bit_and x y) (bit_and z (bit_or x y))

abbrev majority_fips : ℕ → ℕ → ℕ → ℕ
majority_fips x y z = bit_xor (bit_xor (bit_and x y) (bit_and x z)) (bit_and y z)

half-majority : (x y z : ℕ) → majority x y z / 2 ≡ majority (x / 2) (y / 2) (z / 2)
half-majority x y z =
    rw
      (
        half-bit_or (bit_and x y) (bit_and z (bit_or x y)),
        half-bit_and x y,
        half-bit_and z (bit_or x y),
        half-bit_or x y,
      )
      refl

half-majority_fips : (x y z : ℕ) → majority_fips x y z / 2 ≡ majority_fips (x / 2) (y / 2) (z / 2)
half-majority_fips x y z =
    rw
      (
        half-bit_xor (bit_xor (bit_and x y) (bit_and x z)) (bit_and y z),
        half-bit_xor (bit_and x y) (bit_and x z),
        half-bit_and x y,
        half-bit_and x z,
        half-bit_and y z,
      )
      refl

low-majority : (x y z : ℕ) → majority x y z % 2 ≡ majority_fips x y z % 2
low-majority x y z = omega (
  arith,
  low-bit_or (bit_and x y) (bit_and z (bit_or x y)),
  low-bit_and x y,
  low-bit_and z (bit_or x y),
  low-bit_or x y,
  low-bit_xor (bit_xor (bit_and x y) (bit_and x z)) (bit_and y z),
  low-bit_xor (bit_and x y) (bit_and x z),
  low-bit_and x z,
  low-bit_and y z,
)

majority_below : (n x y z : ℕ) → x + y + z ≤ n → majority x y z ≡ majority_fips x y z
majority_below n zero zero zero h = refl
majority_below zero (suc x) y z h = absurd (omega arith)
majority_below zero zero (suc y) z h = absurd (omega arith)
majority_below zero zero zero (suc z) h = absurd (omega arith)
majority_below (suc n) x y z h =
    by_digits _ _
      (half-majority x y z
        ∙ (majority_below n (x / 2) (y / 2) (z / 2) (omega arith) ∙ sym (half-majority_fips x y z)))
      (low-majority x y z)

pub majority_lem : (x y z : ℕ) → majority x y z ≡ majority_fips x y z
majority_lem x y z = majority_below (x + y + z) x y z (omega arith)

-- `^` is commutative and associative.
comm_below : (n x y : ℕ) → x + y ≤ n → bit_xor x y ≡ bit_xor y x
comm_below n zero zero h = refl
comm_below zero (suc x) y h = absurd (omega arith)
comm_below zero zero (suc y) h = absurd (omega arith)
comm_below (suc n) x y h =
    omega (arith, bit_xor_digit x y, bit_xor_digit y x, comm_below n (x / 2) (y / 2) (omega arith))

pub bit_xor_comm : (x y : ℕ) → bit_xor x y ≡ bit_xor y x
bit_xor_comm x y = comm_below (x + y) x y (omega arith)

assoc_below : (n x y z : ℕ) → x + y + z ≤ n → bit_xor (bit_xor x y) z ≡ bit_xor x (bit_xor y z)
assoc_below n zero zero zero h = refl
assoc_below zero (suc x) y z h = absurd (omega arith)
assoc_below zero zero (suc y) z h = absurd (omega arith)
assoc_below zero zero zero (suc z) h = absurd (omega arith)
assoc_below (suc n) x y z h =
    by_digits _ _
      (rw
        (
          half-bit_xor (bit_xor x y) z,
          half-bit_xor x y,
          half-bit_xor x (bit_xor y z),
          half-bit_xor y z,
        )
        (assoc_below n (x / 2) (y / 2) (z / 2) (omega arith)))
      (omega (
        arith,
        low-bit_xor (bit_xor x y) z,
        low-bit_xor x y,
        low-bit_xor x (bit_xor y z),
        low-bit_xor y z,
      ))

pub bit_xor_assoc : (x y z : ℕ) → bit_xor (bit_xor x y) z ≡ bit_xor x (bit_xor y z)
bit_xor_assoc x y z = assoc_below (x + y + z) x y z (omega arith)

-- A result of `|` has no more digits than its arguments.
pub bit_or_lt : (w x y : ℕ) → x < 2 ^ w → y < 2 ^ w → bit_or x y < 2 ^ w
bit_or_lt zero zero zero hx hy = omega arith
bit_or_lt zero (suc x) y hx hy = absurd (omega arith)
bit_or_lt zero zero (suc y) hx hy = absurd (omega arith)
bit_or_lt (suc w) x y hx hy = omega (
  arith,
  double w,
  bit_or_digit x y,
  bit_or_lt w (x / 2) (y / 2) (omega (arith, double w)) (omega (arith, double w)),
)
