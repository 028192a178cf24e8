-- ===== src/Base/Bits.antt =====
-- `&` and `|` on a word that is cut in two at bit k: each half is computed by itself.
use Prim.Native.Nat.{
  ℕ, zero, suc, ◌+◌, ◌-◌, ◌*◌, ◌/◌, ◌%◌, ◌^◌, ◌≤◌, ◌<◌, min, max, digits, bit_and, bit_or,
  bit_and-bitwise, bit_or-bitwise,
}
use mathlib.Core.Path.{◌≡◌, refl, ap, ◌∙◌}
use native.Mathlib.Nat.{pow-suc, one-le-pow, le_refl}
use native.Mathlib.Omega.{arith}

-- Fuel from the first number on is enough, and more changes nothing.
spare_fuel :
    (z : ℕ → ℕ) (f : ℕ → ℕ → ℕ) (a b i j : ℕ) → a ≤ min i j → digits z f i a b ≡ digits z f j a b
spare_fuel z f zero b (suc i) (suc j) le = refl
spare_fuel z f zero b zero zero le = refl
spare_fuel z f zero b (suc i) zero le = refl
spare_fuel z f zero b zero (suc j) le = refl
spare_fuel z f (suc a) b (suc i) (suc j) le =
    rw (spare_fuel z f (suc a / 2) (b / 2) i j (omega arith))
spare_fuel z f (suc a) b zero j le = absurd (omega arith)
spare_fuel z f (suc a) b (suc i) zero le = absurd (omega arith)

lowest_digit :
    (z : ℕ → ℕ) (f : ℕ → ℕ → ℕ) (a b : ℕ)
    → digits z f (suc a) (suc a) b
      ≡ digits z f (suc a / 2) (suc a / 2) (b / 2) * 2 + f (suc a % 2) (b % 2)
lowest_digit z f a b = omega (arith, spare_fuel z f (suc a / 2) (b / 2) a (suc a / 2) (omega arith))

bit_and_digit : (a b : ℕ) → bit_and a b ≡ bit_and (a / 2) (b / 2) * 2 + min (a % 2) (b % 2)
bit_and_digit zero b = simp bit_and-bitwise (omega arith)
bit_and_digit (suc a) b = simp bit_and-bitwise (lowest_digit (λ y. 0) min a b)

bit_or_digit : (a b : ℕ) → bit_or a b ≡ bit_or (a / 2) (b / 2) * 2 + max (a % 2) (b % 2)
bit_or_digit zero b = simp bit_or-bitwise (omega arith)
bit_or_digit (suc a) b = simp bit_or-bitwise (lowest_digit (λ y. y) max a b)

shift_suc : (q k : ℕ) → q * 2 ^ suc k ≡ 2 * (q * 2 ^ k)
shift_suc q k = omega (arith, ap (λ (t : ℕ). q * t) (pow-suc 2 k))

pub bit_and_fields :
    (k q r s t : ℕ)
    → r < 2 ^ k
    → t < 2 ^ k
    → bit_and (q * 2 ^ k + r) (s * 2 ^ k + t) ≡ bit_and q s * 2 ^ k + bit_and r t
bit_and_fields zero q r s t h k =
    let eq : r ≡ 0 = omega arith in let et : t ≡ 0 = omega arith in rw (eq, et) (ground arith)
bit_and_fields (suc k) q r s t h i = ground (
  arith,
  bit_and_digit (q * 2 ^ suc k + r) (s * 2 ^ suc k + t),
  bit_and_digit r t,
  shift_suc q k,
  shift_suc s k,
  shift_suc (bit_and q s) k,
  pow-suc 2 k,
  bit_and_fields k q (r / 2) s (t / 2),
)

pub bit_or_fields :
    (k q r s t : ℕ)
    → r < 2 ^ k
    → t < 2 ^ k
    → bit_or (q * 2 ^ k + r) (s * 2 ^ k + t) ≡ bit_or q s * 2 ^ k + bit_or r t
bit_or_fields zero q r s t h k =
    let eq : r ≡ 0 = omega arith in let et : t ≡ 0 = omega arith in rw (eq, et) (ground arith)
bit_or_fields (suc k) q r s t h i = ground (
  arith,
  bit_or_digit (q * 2 ^ suc k + r) (s * 2 ^ suc k + t),
  bit_or_digit r t,
  shift_suc q k,
  shift_suc s k,
  shift_suc (bit_or q s) k,
  pow-suc 2 k,
  bit_or_fields k q (r / 2) s (t / 2),
)

-- The smaller of each digit and 0 is 0, whatever the fuel.
no_digits : (a i : ℕ) → digits (λ y. 0) min i a 0 ≡ 0
no_digits zero zero = refl
no_digits zero (suc i) = refl
no_digits (suc a) zero = refl
no_digits (suc a) (suc i) = rw (no_digits (suc a / 2) i) (omega arith)

pub bit_and-zero : (a : ℕ) → bit_and a 0 ≡ 0
bit_and-zero a = bit_and-bitwise a 0 ∙ no_digits a a

pub zero-bit_and : (a : ℕ) → bit_and 0 a ≡ 0
zero-bit_and a = bit_and-bitwise 0 a

pub zero-bit_or : (a : ℕ) → bit_or 0 a ≡ a
zero-bit_or a = bit_or-bitwise 0 a

bit_or-zero_fuel : (n a : ℕ) → a ≤ n → bit_or a 0 ≡ a
bit_or-zero_fuel n zero h = refl
bit_or-zero_fuel zero (suc a) h = absurd (omega arith)
bit_or-zero_fuel (suc n) (suc a) h =
    omega (arith, bit_or_digit (suc a) 0, bit_or-zero_fuel n (suc a / 2) (omega arith))

pub bit_or-zero : (a : ℕ) → bit_or a 0 ≡ a
bit_or-zero a = bit_or-zero_fuel a a (le_refl a)

-- A mask of k ones keeps a number of k bits.
pub bit_and_ones : (k a : ℕ) → a < 2 ^ k → bit_and a (2 ^ k - 1) ≡ a
bit_and_ones zero a h = rw bit_and-zero (omega arith)
bit_and_ones (suc k) a h =
    ground
      (arith, bit_and_digit a (2 ^ suc k - 1), pow-suc 2 k, one-le-pow k 2, bit_and_ones k (a / 2))

-- A mask of k ones is the remainder by `2 ^ k`.
pub bit_and_mask : (k a : ℕ) → bit_and a (2 ^ k - 1) ≡ a % 2 ^ k
bit_and_mask k a = ground (
  arith,
  one-le-pow k 2,
  bit_and_fields k (a / 2 ^ k) (a % 2 ^ k) 0 (2 ^ k - 1),
  bit_and-zero (a / 2 ^ k),
  bit_and_ones k (a % 2 ^ k),
)

ones-bit_and : (k a : ℕ) → a < 2 ^ k → bit_and (2 ^ k - 1) a ≡ a
ones-bit_and zero a h = rw zero-bit_and (omega arith)
ones-bit_and (suc k) a h =
    ground
      (arith, bit_and_digit (2 ^ suc k - 1) a, pow-suc 2 k, one-le-pow k 2, ones-bit_and k (a / 2))

-- The mask as the first operand.
pub mask-bit_and : (k a : ℕ) → bit_and (2 ^ k - 1) a ≡ a % 2 ^ k
mask-bit_and k a = ground (
  arith,
  one-le-pow k 2,
  bit_and_fields k 0 (2 ^ k - 1) (a / 2 ^ k) (a % 2 ^ k),
  zero-bit_and (a / 2 ^ k),
  ones-bit_and k (a % 2 ^ k),
)
