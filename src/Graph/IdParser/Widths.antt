-- ===== src/Graph/IdParser/Widths.antt =====
-- The width that `num_to_bitwidth` finds, against the numbers below its argument.
use native.Mathlib.Nat.{pow-suc}
use libvineyard.Base.{
  ℕ, zero, suc, ◌-◌, ◌*◌, ◌/◌, ◌^◌, ◌≤◌, ◌<◌, ◌≡◌, refl, ◌⊎◌, inl, inr, zero-cases, arith,
}
use libvineyard.Graph.IdParser.{count_bits, num_to_bitwidth}

-- With enough rounds the loop stops at a number of bits that holds the number, and one less does not.
count_bits_holds :
    (fuel max : ℕ) → max < 2 ^ fuel → (max < 2 ^ count_bits fuel max) × (count_bits fuel max ≤ fuel)
unfolding count_bits
count_bits_holds zero max h = ground arith
count_bits_holds (suc fuel) zero h = ground arith
count_bits_holds (suc fuel) (suc max) h = ground (
  arith,
  pow-suc 2 fuel,
  pow-suc 2 (count_bits fuel (suc max / 2)),
  count_bits_holds fuel (suc max / 2),
)

count_bits-zero : (fuel : ℕ) → count_bits fuel 0 ≡ 0
unfolding count_bits
count_bits-zero zero = refl
count_bits-zero (suc fuel) = refl

count_bits_least : (fuel max : ℕ) → 0 < max → max < 2 ^ fuel → 2 ^ count_bits fuel max ≤ 2 * max
unfolding count_bits
count_bits_least zero max p h = ground arith
count_bits_least (suc fuel) zero p h = ground arith
count_bits_least (suc fuel) (suc max) p h = elim (zero-cases (suc max / 2)) [
  | inl e ↦ rw (e, count_bits-zero fuel) (omega arith)
  | inr q ↦ ground (
    arith,
    pow-suc 2 fuel,
    pow-suc 2 (count_bits fuel (suc max / 2)),
    count_bits_least fuel (suc max / 2) q (ground (arith, pow-suc 2 fuel)),
  )
]

-- For any int that is not negative, the width is between 1 and 31, has room for every number below
-- it, and, from 3 on, one bit less has not.
pub num_to_bitwidth_lem :
    (num : ℕ)
    → num < 2 ^ 31
    → (1 ≤ num_to_bitwidth num)
      × (num_to_bitwidth num ≤ 31)
      × (num ≤ 2 ^ num_to_bitwidth num)
      × ((num ≤ 2) ⊎ (2 ^ num_to_bitwidth num < 2 * num))
unfolding num_to_bitwidth
num_to_bitwidth_lem num h =
    ground (arith, count_bits_holds 31 (num - 1), count_bits_least 31 (num - 1))
