-- ===== src/Base/Words.antt =====
-- 64-bit machine words: `size_t` and `uint64_t` wrap, and an `int64_t` is read as its bit pattern
-- in two's complement.
use Prim.Native.Nat.{ℕ, ◌+◌, ◌-◌, ◌%◌, ◌^◌, ◌<◌}
use mathlib.Core.Path.{◌≡◌}
use mathlib.Core.Bool.{Bool}
use native.Mathlib.Omega.{arith}
use package.libvineyard.Base.Tests.{ltb}

abbrev pub word : ℕ
word = 2 ^ 64

-- The sign bit.
abbrev pub half_word : ℕ
half_word = 2 ^ 63

abbrev pub add64 : ℕ → ℕ → ℕ
add64 a b = (a + b) % word

abbrev pub sub64 : ℕ → ℕ → ℕ
sub64 a b = (a + word - b) % word

-- `a < b` on `int64_t`: the order of the patterns once the sign bit is flipped.
abbrev pub slt64 : ℕ → ℕ → Bool
slt64 a b = ltb ((a + half_word) % word) ((b + half_word) % word)

pub sub64-add64 : (a b : ℕ) → a < word → b < word → sub64 (add64 a b) b ≡ a
sub64-add64 a b ha hb = omega arith
