-- ===== src/Common/Uuid/Laws.antt =====
-- Object ids: the blob bit, and the round trip through text.
use native.Mathlib.Nat.{pow-suc, one-le-pow, div-add-mod}
use mathlib.Core.Path.{ap}
use libvineyard.Base.Bits.{
  bit_and_fields, bit_or_fields, bit_and_mask, mask-bit_and, bit_and-zero, bit_and_ones,
  zero-bit_and, zero-bit_or, bit_or-zero,
}
use libvineyard.Base.{
  ℕ, zero, suc, ◌+◌, ◌*◌, ◌/◌, ◌%◌, ◌^◌, ◌<◌, bit_and, ◌≡◌, refl, ◌∙◌, ◌⊎◌, ◌≤◌, ◌==◌, true, false,
  some, [], ◌∷◌, arith, word, half_word, Text, All, is_empty,
}
use libvineyard.Meta.Paths.{has_char}
use libvineyard.Common.Uuid.{
  get_blob_addr, generate_blob_id, generate_object_id, is_blob, object_id_to_string,
  object_id_from_string, hex_digit, hex_value, padded_hex, read_hex, signed_word, skip_spaces,
  skip_prefix, is_space,
}

abbrev top : ℕ
top = 2 ^ 63

and_top : (a : ℕ) → bit_and a top ≡ bit_and (a / top) 1 * top
and_top a = ground (arith, bit_and_fields 63 (a / top) (a % top) 1 0, bit_and-zero (a % top))

pub generate_blob_id-add : (p : ℕ) → p < half_word → generate_blob_id p ≡ half_word + p
unfolding generate_blob_id
generate_blob_id-add p h = ground (arith, bit_or_fields 63 1 0 0 p, bit_or-zero 1, zero-bit_or p)

-- A blob's id gives its address back, and is told from the id of any other object.
pub blob_id_roundtrip :
    (ptr tsc : ℕ)
    → ptr < half_word
    → (get_blob_addr (generate_blob_id ptr) ≡ ptr)
      × (is_blob (generate_blob_id ptr) ≡ true)
      × (is_blob (generate_object_id tsc) ≡ false)
      × (generate_blob_id ptr < word)
unfolding get_blob_addr is_blob generate_object_id
blob_id_roundtrip ptr tsc h = ground (
  arith,
  generate_blob_id-add ptr h,
  and_top (half_word + ptr),
  bit_and_mask 63 (half_word + ptr),
  bit_and_ones 1 1,
  mask-bit_and 63 tsc,
  and_top (tsc % top),
  zero-bit_and 1,
)

hex_digit_range :
    (d : ℕ)
    → d < 16
    → ((b'0' ≤ hex_digit d) × (hex_digit d ≤ b'9')) ⊎ ((b'a' ≤ hex_digit d) × (hex_digit d ≤ b'f'))
unfolding hex_digit
hex_digit_range d h = ground arith

hex_value-hex_digit : (d : ℕ) → d < 16 → hex_value (hex_digit d) ≡ some d
unfolding hex_value hex_digit
hex_value-hex_digit d h = ground arith

hex_quotient : (n v : ℕ) → v < 16 ^ suc n → v / 16 ^ n < 16
hex_quotient n v h = grind (arith, pow-suc 16 n)

regroup : (a q p r : ℕ) → (a * 16 + q) * p + r ≡ a * (p * 16) + (q * p + r)
regroup a q p r = omega arith

next_digit : (n v acc : ℕ) → (acc * 16 + v / 16 ^ n) * 16 ^ n + v % 16 ^ n ≡ acc * 16 ^ suc n + v
next_digit n v acc =
    rw (pow-suc 16 n, regroup acc (v / 16 ^ n) (16 ^ n) (v % 16 ^ n))
      (ap (λ (t : ℕ). acc * (16 ^ n * 16) + t) (omega (arith, div-add-mod v (16 ^ n))))

read_hex-padded_hex : (n v acc : ℕ) → v < 16 ^ n → read_hex acc (padded_hex n v) ≡ acc * 16 ^ n + v
unfolding read_hex padded_hex
read_hex-padded_hex zero v acc h = omega arith
read_hex-padded_hex (suc n) v acc h =
    rw (hex_value-hex_digit (v / 16 ^ n) (hex_quotient n v h), read_hex)
      (read_hex-padded_hex n (v % 16 ^ n) (acc * 16 + v / 16 ^ n) (grind (arith, one-le-pow n 16))
        ∙ next_digit n v acc)

not_space : (d : ℕ) → d < 16 → is_space (hex_digit d) ≡ false
not_space d h = ground (arith, hex_digit_range d h)

not_sign : (d : ℕ) → d < 16 → ((hex_digit d == b'-') ≡ false) × ((hex_digit d == b'+') ≡ false)
not_sign d h = ground (arith, hex_digit_range d h)

-- The bytes from `0` to `f`, among which are the hexadecimal digits.
abbrev pub IsHexByte : ℕ → Type 0
IsHexByte c = (b'0' ≤ c) × (c ≤ b'f')

padded_hex-IsHexByte : (n v : ℕ) → v < 16 ^ n → All IsHexByte (padded_hex n v)
unfolding padded_hex
padded_hex-IsHexByte zero v h = tt
padded_hex-IsHexByte (suc n) v h = (
  omega (arith, hex_digit_range (v / 16 ^ n) (hex_quotient n v h)),
  padded_hex-IsHexByte n (v % 16 ^ n) (grind (arith, one-le-pow n 16)),
)

pub object_id_to_string-IsHexByte :
    (id : ℕ)
    → id < word
    → All IsHexByte (object_id_to_string id) × (is_empty (object_id_to_string id) ≡ false)
unfolding object_id_to_string padded_hex
object_id_to_string-IsHexByte id h = (padded_hex-IsHexByte 16 id (omega arith), refl)

padded_hex-no_semicolon : (n v : ℕ) → v < 16 ^ n → has_char b';' (padded_hex n v) ≡ false
unfolding padded_hex has_char
padded_hex-no_semicolon zero v h = refl
padded_hex-no_semicolon (suc n) v h = ground (
  arith,
  hex_digit_range (v / 16 ^ n) (hex_quotient n v h),
  padded_hex-no_semicolon n (v % 16 ^ n) (grind (arith, one-le-pow n 16)),
)

pub object_id_to_string-no_semicolon :
    (id : ℕ) → id < word → has_char b';' (object_id_to_string id) ≡ false
unfolding object_id_to_string
object_id_to_string-no_semicolon id h = padded_hex-no_semicolon 16 id (omega arith)

skip_spaces_digit : (d : ℕ) (s : Text) → d < 16 → skip_spaces (hex_digit d ∷ s) ≡ hex_digit d ∷ s
unfolding skip_spaces
skip_spaces_digit d s h = rw (not_space d h)

skip_prefix_digits :
    (x y : ℕ) (s : Text)
    → y < 16
    → skip_prefix (hex_digit x ∷ hex_digit y ∷ s) ≡ hex_digit x ∷ hex_digit y ∷ s
unfolding skip_prefix
skip_prefix_digits x y [] h = refl
skip_prefix_digits x y (c ∷ s) h = ground (arith, hex_digit_range y h)

-- A text that begins with digits has no spaces, sign or prefix to skip.
read_plain :
    (x y : ℕ) (s : Text)
    → x < 16
    → y < 16
    → let t = hex_digit x ∷ hex_digit y ∷ s in
      object_id_from_string t ≡ signed_word false (read_hex 0 t)
unfolding object_id_from_string
read_plain x y s hx hy =
    let (minus, plus) = not_sign x hx in
    rw (skip_spaces_digit x (hex_digit y ∷ s) hx, skip_prefix_digits x y s hy, minus, plus)

read_padded :
    (n v : ℕ)
    → v < 16 ^ suc (suc n)
    → object_id_from_string (padded_hex (suc (suc n)) v) ≡ signed_word false v
unfolding padded_hex
read_padded n v h =
    read_plain (v / 16 ^ suc n) (v % 16 ^ suc n / 16 ^ n) _ (hex_quotient (suc n) v h)
      (hex_quotient n (v % 16 ^ suc n) (grind (arith, one-le-pow (suc n) 16)))
    ∙ ap (signed_word false) (read_hex-padded_hex (suc (suc n)) v 0 h ∙ omega arith)

-- The text of every 64-bit id reads back as that id.
pub object_id_from_string-to_string :
    (id : ℕ) → id < word → object_id_from_string (object_id_to_string id) ≡ id
unfolding object_id_to_string signed_word
object_id_from_string-to_string id h = read_padded 14 id h ∙ ground arith
