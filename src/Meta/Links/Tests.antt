-- ===== src/Meta/Links/Tests.antt =====
-- Tagged values and links on concrete texts.
use libvineyard.Base.{◌≡◌, refl, Text, codes, arith}
use libvineyard.Common.Uuid.{object_id_to_string}
use libvineyard.Meta.Paths.{has_char, before_char}
use libvineyard.Meta.Links.{link, encode_value, generate_link, decode_object_id, decoded}
use libvineyard.Meta.Links.RoundTrip.{decode_object_id-generate_link}

abbrev tensor : Text
tensor = codes "vineyard::Tensor<int64>"

decode_object_id-generate_link_example :
    decode_object_id (encode_value link (generate_link tensor (object_id_to_string 12)))
    ≡ decoded 12
unfolding has_char before_char
decode_object_id-generate_link_example =
    decode_object_id-generate_link tensor 12 (omega arith) refl refl
