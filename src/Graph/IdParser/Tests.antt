-- ===== src/Graph/IdParser/Tests.antt =====
-- Vertex ids of 64 bits in a graph of 4 fragments and 5 labels.
use libvineyard.Base.{◌+◌, ◌*◌, ◌^◌, ◌≤◌, ◌<◌, ◌≡◌, refl, ◌⊎◌, arith}
use libvineyard.Graph.IdParser.{
  num_to_bitwidth, count_bits, init, generate_id, get_fid, get_label_id, get_offset, get_lid,
  IdParser,
}
use libvineyard.Graph.IdParser.Widths.{num_to_bitwidth_lem}
use libvineyard.Graph.IdParser.RoundTrip.{generate_id_roundtrip}

abbrev parser : IdParser
parser = init 64 4 5

made : generate_id 64 parser 3 4 1000 ≡ 3 * 2 ^ 62 + 4 * 2 ^ 59 + 1000
unfolding init generate_id num_to_bitwidth count_bits
made = refl

num_to_bitwidth_lem_example :
    (1 ≤ num_to_bitwidth 5)
    × (num_to_bitwidth 5 ≤ 31)
    × (5 ≤ 2 ^ num_to_bitwidth 5)
    × ((5 ≤ 2) ⊎ (2 ^ num_to_bitwidth 5 < 2 * 5))
num_to_bitwidth_lem_example = num_to_bitwidth_lem 5 (omega arith)

generate_id_roundtrip_example :
    let id = generate_id 64 parser 3 4 1000 in
    (get_fid parser id ≡ 3)
    × (get_label_id parser id ≡ 4)
    × (get_offset parser id ≡ 1000)
    × (get_lid parser id ≡ generate_id 64 parser 0 4 1000)
    × (id < 2 ^ 64)
unfolding init num_to_bitwidth count_bits
generate_id_roundtrip_example =
    generate_id_roundtrip 64 4 5 3 4 1000 (omega arith) (omega arith) (omega arith) (omega arith)
      (omega arith) (omega arith)
