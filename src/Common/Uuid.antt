-- ===== src/Common/Uuid.antt =====
-- src/common/util/uuid.h and uuid.cc: object ids are 64-bit words. A blob's id is its address with
-- the top bit set, and the text of an id is its 16 hexadecimal digits.
pub mod Laws
pub mod Tests
use libvineyard.Base.{
  ℕ, zero, suc, ◌+◌, ◌-◌, ◌*◌, ◌/◌, ◌%◌, ◌^◌, bit_and, bit_or, Bool, ◌&&◌, ◌||◌, not, Option, none,
  some, [], ◌∷◌, ltb, leb, ◌==◌, if◌then◌else◌, Text,
}

-- `ObjectID`, a uint64_t. `GetBlobAddr` answers the null pointer, 0, for what is no blob.
pub get_blob_addr : ℕ → ℕ
get_blob_addr id =
    if not (bit_and id 0x8000_0000_0000_0000 == 0) then bit_and id 0x7fff_ffff_ffff_ffff else 0

unfoldable pub generate_blob_id : ℕ → ℕ
generate_blob_id ptr = bit_or 0x8000_0000_0000_0000 ptr

abbrev pub empty_blob_id : ℕ
empty_blob_id = 0x8000_0000_0000_0000

-- The argument is the time stamp counter, `__rdtsc()`.
unfoldable pub generate_object_id : ℕ → ℕ
generate_object_id tsc = bit_and 0x7fff_ffff_ffff_ffff tsc

unfoldable pub is_blob : ℕ → Bool
is_blob id = not (bit_and id 0x8000_0000_0000_0000 == 0)

abbrev pub invalid_object_id : ℕ
invalid_object_id = 2 ^ 64 - 1

abbrev pub unspecified_instance_id : ℕ
unspecified_instance_id = 2 ^ 64 - 1

hex_digit : ℕ → ℕ
hex_digit d = if ltb d 10 then b'0' + d else b'a' + (d - 10)

-- `%0nx` of a number that has at most n digits.
padded_hex : ℕ → ℕ → Text
padded_hex zero v = []
padded_hex (suc n) v = hex_digit (v / 16 ^ n) ∷ padded_hex n (v % 16 ^ n)

-- `VYObjectIDToString`, snprintf of `%016lx`.
unfoldable pub object_id_to_string : ℕ → Text
unfolding padded_hex hex_digit
object_id_to_string id = padded_hex 16 id

hex_value : ℕ → Option ℕ
hex_value c =
    if leb b'0' c && leb c b'9'
    then some (c - b'0')
    else if leb b'a' c && leb c b'f'
    then some (c - b'a' + 10)
    else if leb b'A' c && leb c b'F'
    then some (c - b'A' + 10)
    else none

abbrev is_hex : Option ℕ → Bool
is_hex none = Bool.false
is_hex (some d) = Bool.true

-- The digits up to the first byte that is none.
read_hex : ℕ → Text → ℕ
read_hex acc [] = acc
read_hex acc (c ∷ s) = elim (hex_value c) [ none ↦ acc | some d ↦ read_hex (acc * 16 + d) s ]

abbrev pub is_space : ℕ → Bool
is_space c = c == 32 || leb 9 c && leb c 13

skip_spaces : Text → Text
skip_spaces [] = []
skip_spaces (c ∷ s) = let rest = skip_spaces s in if is_space c then rest else c ∷ s

-- `0x` counts as a prefix if a digit follows.
skip_prefix : Text → Text
skip_prefix (a ∷ b ∷ c ∷ s) =
    if a == b'0' && ((b == b'x' || b == b'X') && is_hex (hex_value c)) then c ∷ s else a ∷ b ∷ c ∷ s
skip_prefix s = s

-- Out of range `strtoull` answers ULLONG_MAX, with a minus sign too.
signed_word : Bool → ℕ → ℕ
signed_word negative v =
    if leb (2 ^ 64) v then 2 ^ 64 - 1 else if negative then (2 ^ 64 - v) % 2 ^ 64 else v

read_sign : Text → ℕ
unfolding read_hex skip_prefix signed_word hex_value
read_sign [] = 0
read_sign (c ∷ s) =
    if c == b'-'
    then signed_word Bool.true (read_hex 0 (skip_prefix s))
    else if c == b'+'
    then signed_word Bool.false (read_hex 0 (skip_prefix s))
    else signed_word Bool.false (read_hex 0 (skip_prefix (c ∷ s)))

-- `VYObjectIDFromString`, strtoull in base 16.
unfoldable pub object_id_from_string : Text → ℕ
unfolding read_sign skip_spaces
object_id_from_string s = read_sign (skip_spaces s)
