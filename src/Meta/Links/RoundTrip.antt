-- ===== src/Meta/Links/RoundTrip.antt =====
-- Tagged values and links, written and read back.
use libvineyard.Base.{
  ℕ, ◌<◌, ◌≡◌, refl, ap, ◌≢◌, true, false, some, [], ◌∷◌, ◌++◌, arith, Text, All, is_empty, word,
}
use libvineyard.Common.Uuid.{object_id_to_string}
use libvineyard.Common.Uuid.Laws.{
  IsHexByte, object_id_to_string-IsHexByte, object_id_from_string-to_string,
}
use libvineyard.Meta.Paths.{has_char, cut_at, before_char}
use libvineyard.Meta.Links.{
  NodeType, value, link, invalid_type, encode_value, decode_value, parse_link, parsed,
  generate_link, decode_object_id, decoded, is_link_node, is_value_node,
}

-- A value that is tagged as a value or a link is decoded as it was encoded, and only the tests for
-- its own tag hold of it.
pub decode_value-encode_value :
    (type : NodeType) (s : Text)
    → type ≢ invalid_type
    → (decode_value (encode_value type s) ≡ (type, s))
      × (is_link_node (encode_value type s) ≡ elim type [ link ↦ true | _ ↦ false ])
      × (is_value_node (encode_value type s) ≡ elim type [ value ↦ true | _ ↦ false ])
unfolding decode_value encode_value is_link_node is_value_node
decode_value-encode_value value s h = (refl, refl, refl)
decode_value-encode_value link s h = (refl, refl, refl)
decode_value-encode_value invalid_type s h = absurd (h refl)

cut_at-append : (c : ℕ) (s t : Text) → has_char c s ≡ false → cut_at c (s ++ c ∷ t) ≡ some (s, t)
unfolding cut_at has_char
cut_at-append c [] t h = ground arith
cut_at-append c (d ∷ s) t h = ground (arith, cut_at-append c s t)

-- The link to a name without dots, by a type whose text up to its parameters has no dots, reads back
-- as that text and the name, where neither is empty.
pub parse_link-generate_link :
    (type name : Text)
    → has_char b'.' name ≡ false
    → has_char b'.' (before_char b'<' type) ≡ false
    → is_empty name ≡ false
    → is_empty (before_char b'<' type) ≡ false
    → parse_link (generate_link type name) ≡ parsed (before_char b'<' type) name
unfolding parse_link generate_link
parse_link-generate_link type name a b c d =
    rw (cut_at-append b'.' name (before_char b'<' type) a, parse_link, b, c, d)

pub no_dot : (s : Text) → All IsHexByte s → has_char b'.' s ≡ false
unfolding has_char
no_dot [] h = refl
no_dot (c ∷ s) h = ground (arith, no_dot s h.1)

-- A tagged link to an object by the text of its id decodes to that id, where the type, up to its
-- parameters, is not empty and has no dots.
pub decode_object_id-generate_link :
    (type : Text) (id : ℕ)
    → id < word
    → has_char b'.' (before_char b'<' type) ≡ false
    → is_empty (before_char b'<' type) ≡ false
    → decode_object_id (encode_value link (generate_link type (object_id_to_string id)))
      ≡ decoded id
unfolding decode_object_id encode_value decode_value
decode_object_id-generate_link type id h a b =
    let digits = object_id_to_string-IsHexByte id h in
    let e =
      parse_link-generate_link type (object_id_to_string id)
        (no_dot (object_id_to_string id) digits.0) a digits.1 b in
    rw (e, decode_object_id) (ap decoded (object_id_from_string-to_string id h))
