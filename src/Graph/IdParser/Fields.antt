-- ===== src/Graph/IdParser/Fields.antt =====
-- Vertex ids as a fragment, a label and an offset side by side.
use native.Mathlib.Nat.{
  pow-zero, mod-eq_of_lt, div-eq_of_lt-le, mod_def, mod-eq-sub-mod, pow-suc, one-le-pow,
  pow-le-pow_right,
}
use libvineyard.Base.{
  ℕ, zero, suc, ◌+◌, ◌-◌, ◌*◌, ◌/◌, ◌%◌, ◌^◌, ◌≤◌, ◌<◌, ◌≡◌, ap, ◌∙◌, arith, bit_and, bit_or,
}
use libvineyard.Base.Bits.{
  bit_and_fields, bit_or_fields, bit_and_ones, zero-bit_and, zero-bit_or, bit_or-zero,
}
use libvineyard.Graph.IdParser.{IdParser, num_to_bitwidth, init, shift_left, decrement, generate_id}
use libvineyard.Graph.IdParser.Widths.{num_to_bitwidth_lem}

times_assoc : (a b c : ℕ) → a * b * c ≡ a * (b * c)
times_assoc a b c = omega arith

pub two-pow-add : (a b : ℕ) → 2 ^ (a + b) ≡ 2 ^ a * 2 ^ b
two-pow-add a zero = ground (arith, pow-zero 2)
two-pow-add a (suc b) =
    let e : a + suc b ≡ suc (a + b) = omega arith in
    rw (e, pow-suc 2 (a + b), pow-suc 2 b, two-pow-add a b) (times_assoc (2 ^ a) (2 ^ b) 2)

pub times_below : (x p q : ℕ) → x < q → x * p + p ≤ q * p
times_below x p q h = grind arith

pow_le : (i j : ℕ) → i ≤ j → 2 ^ i ≤ 2 ^ j
pow_le i j h = pow-le-pow_right {n = 2} (omega arith) h

wrap_pred : (a m : ℕ) → 0 < a → a ≤ m → (a + (m - 1)) % m ≡ a - 1
wrap_pred a m h k =
    let e : a + (m - 1) - m ≡ a - 1 = omega arith in
    mod-eq-sub-mod {n = a + (m - 1)} {m = m} (omega arith)
    ∙ (ap (λ (t : ℕ). t % m) e ∙ mod-eq_of_lt {n = a - 1} {m = m} (omega arith))

pub quotient : (a m r : ℕ) → r < m → (a * m + r) / m ≡ a
quotient a m r h = div-eq_of_lt-le {k = a} m {m = a * m + r} (omega arith) (omega arith)

pub remainder : (a m r : ℕ) → r < m → (a * m + r) % m ≡ r
remainder a m r h = rw (mod_def (a * m + r) m, quotient a m r h) (omega arith)

module _ (w : ℕ) where
  ones : (n : ℕ) → n < w → decrement w (shift_left w 1 n) ≡ 2 ^ n - 1
  ones n h =
      let p : 2 ^ n < 2 ^ w = ground (arith, one-le-pow n 2, pow_le (suc n) w h, pow-suc 2 n) in
      let e : (1 * 2 ^ n) % 2 ^ w ≡ 2 ^ n =
        mod-eq_of_lt {n = 1 * 2 ^ n} {m = 2 ^ w} (omega arith) ∙ omega arith in
      rw e (wrap_pred (2 ^ n) (2 ^ w) (one-le-pow n 2 (omega arith)) (omega arith))

  shifted : (x n k : ℕ) → x < 2 ^ n → n + k ≤ w → shift_left w x k ≡ x * 2 ^ k
  shifted x n k h i = mod-eq_of_lt {n = x * 2 ^ k} {m = 2 ^ w} (
      omega (
        arith,
        one-le-pow k 2 (omega arith),
        times_below x (2 ^ k) (2 ^ n) h,
        two-pow-add n k,
        pow_le (n + k) w i,
      ))

-- The parser of ids of k, l and f bits for the offset, the label and the fragment.
abbrev pub layout : ℕ → ℕ → ℕ → IdParser
layout k l f = record {
  fid_offset = k + l;
  label_id_offset = k;
  fid_mask = (2 ^ f - 1) * 2 ^ (k + l);
  lid_mask = 2 ^ (k + l) - 1;
  label_id_mask = (2 ^ l - 1) * 2 ^ k;
  offset_mask = 2 ^ k - 1;
}

pub init-layout :
    (w k fnum label_num : ℕ)
    → fnum < 2 ^ 31
    → label_num < 2 ^ 31
    → k + num_to_bitwidth label_num + num_to_bitwidth fnum ≡ w
    → init w fnum label_num ≡ layout k (num_to_bitwidth label_num) (num_to_bitwidth fnum)
unfolding init
init-layout w k fnum label_num a b e =
    let l = num_to_bitwidth label_num in
    let f = num_to_bitwidth fnum in
    let wl = num_to_bitwidth_lem label_num b in
    let wf = num_to_bitwidth_lem fnum a in
    let upper : w - num_to_bitwidth fnum ≡ k + num_to_bitwidth label_num = omega arith in
    let lower : k + num_to_bitwidth label_num - num_to_bitwidth label_num ≡ k = omega arith in
    rw (
      upper,
      lower,
      ones w f (omega arith),
      ones w l (omega arith),
      ones w (k + l) (omega arith),
      ones w k (omega arith),
      shifted w (2 ^ f - 1) f (k + l) (omega (arith, one-le-pow f 2 (omega arith))) (omega arith),
      shifted w (2 ^ l - 1) l k (omega (arith, one-le-pow l 2 (omega arith))) (omega arith),
    )

-- A field with nothing below it.
masked : (k n x : ℕ) → x < 2 ^ n → bit_and (x * 2 ^ k) ((2 ^ n - 1) * 2 ^ k) ≡ x * 2 ^ k
masked k n x h =
    ground (
      arith,
      one-le-pow k 2,
      bit_and_fields k x 0 (2 ^ n - 1) 0,
      bit_and_ones n x h,
      zero-bit_and 0,
    )

-- A field over a number that fits below it.
joined : (k x r : ℕ) → r < 2 ^ k → bit_or r (x * 2 ^ k) ≡ x * 2 ^ k + r
joined k x r h = ground (arith, bit_or_fields k 0 r x 0, zero-bit_or x, bit_or-zero r)

module _ (k l f : ℕ) where
  unfoldable pub fields : ℕ → ℕ → ℕ → ℕ
  fields fid label offset = fid * 2 ^ (k + l) + (label * 2 ^ k + offset)

  pub lower_fields :
      (label offset : ℕ) → label < 2 ^ l → offset < 2 ^ k → label * 2 ^ k + offset < 2 ^ (k + l)
  lower_fields label offset h i =
      omega (arith, times_below label (2 ^ k) (2 ^ l) h, two-pow-add l k, two-pow-add k l)

  pub generate_id-fields :
      (fid label offset : ℕ)
      → fid < 2 ^ f
      → label < 2 ^ l
      → offset < 2 ^ k
      → generate_id (k + l + f) (layout k l f) fid label offset ≡ fields fid label offset
  unfolding generate_id fields
  generate_id-fields fid label offset a b c =
      rw
        (
          mod-eq_of_lt {n = offset} {m = 2 ^ (k + l + f)}
              (omega (arith, pow_le k (k + l + f) (omega arith))),
          shifted (k + l + f) label l k b (omega arith),
          shifted (k + l + f) fid f (k + l) a (omega arith),
          bit_and_ones k offset c,
          masked k l label b,
          masked (k + l) f fid a,
          joined k label offset c,
        )
        (joined (k + l) fid (label * 2 ^ k + offset) (lower_fields label offset b c))
