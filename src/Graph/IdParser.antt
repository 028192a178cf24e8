-- ===== src/Graph/IdParser.antt =====
-- modules/graph/fragment/property_graph_utils.h: `IdParser` packs a fragment, a label and an offset
-- into one vertex id, an unsigned number of w bits; the fragment takes the highest bits.
pub mod Widths
pub mod Fields
pub mod RoundTrip
pub mod Tests
use libvineyard.Base.{
  ℕ, zero, suc, ◌+◌, ◌-◌, ◌*◌, ◌/◌, ◌%◌, ◌^◌, bit_and, bit_or, leb, if◌then◌else◌,
}

-- The loop of `num_to_bitwidth`, over what is left of an int: 31 rounds are enough.
unfoldable pub count_bits : ℕ → ℕ → ℕ
count_bits zero max = 0
count_bits (suc fuel) zero = 0
count_bits (suc fuel) (suc max) = suc (count_bits fuel (suc max / 2))

unfoldable pub num_to_bitwidth : ℕ → ℕ
num_to_bitwidth num = if leb num 2 then 1 else count_bits 31 (num - 1)

pub record IdParser : Type 0 where
  pub fid_offset : ℕ
  pub label_id_offset : ℕ
  pub fid_mask : ℕ
  pub lid_mask : ℕ
  pub label_id_mask : ℕ
  pub offset_mask : ℕ

module _ (w : ℕ) where
  -- `<<` and `- 1` on `ID_TYPE`.
  abbrev pub shift_left : ℕ → ℕ → ℕ
  shift_left v n = (v * 2 ^ n) % 2 ^ w

  abbrev pub decrement : ℕ → ℕ
  decrement v = (v + (2 ^ w - 1)) % 2 ^ w

  unfoldable pub init : ℕ → ℕ → IdParser
  init fnum label_num =
      let fid_width = num_to_bitwidth fnum in
      let fid_offset = w - fid_width in
      let label_width = num_to_bitwidth label_num in
      let label_id_offset = fid_offset - label_width in
      record {
        fid_offset = fid_offset;
        label_id_offset = label_id_offset;
        fid_mask = shift_left (decrement (shift_left 1 fid_width)) fid_offset;
        lid_mask = decrement (shift_left 1 fid_offset);
        label_id_mask = shift_left (decrement (shift_left 1 label_width)) label_id_offset;
        offset_mask = decrement (shift_left 1 label_id_offset);
      }

  unfoldable pub generate_id : IdParser → ℕ → ℕ → ℕ → ℕ
  generate_id p fid label offset =
      bit_or
        (bit_or (bit_and (offset % 2 ^ w) p.offset_mask)
          (bit_and (shift_left label p.label_id_offset) p.label_id_mask))
        (bit_and (shift_left fid p.fid_offset) p.fid_mask)

-- The result is a `fid_t`, of 32 bits.
unfoldable pub get_fid : IdParser → ℕ → ℕ
get_fid p v = (v / 2 ^ p.fid_offset) % 2 ^ 32

unfoldable pub get_label_id : IdParser → ℕ → ℕ
get_label_id p v = (bit_and v p.label_id_mask / 2 ^ p.label_id_offset) % 2 ^ 32

unfoldable pub get_offset : IdParser → ℕ → ℕ
get_offset p v = bit_and v p.offset_mask

unfoldable pub get_lid : IdParser → ℕ → ℕ
get_lid p v = bit_and v p.lid_mask
