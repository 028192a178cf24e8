-- ===== src/Meta/Links.antt =====
-- src/server/util/meta_tree.cc: a value in the tree is a text tagged `v`, or a link to another object,
-- tagged `l`, by its name and its type.
pub mod RoundTrip
pub mod Tests
use libvineyard.Base.{
  ℕ, Bool, true, false, ◌||◌, Option, none, some, List, [], ◌∷◌, ◌++◌, ◌==◌, if◌then◌else◌, Text,
  is_empty,
}
use libvineyard.Common.Status.{Status, ok, invalid, meta_tree_link_invalid}
use libvineyard.Common.Uuid.{object_id_from_string}
use libvineyard.Meta.Paths.{has_char, cut_at, before_char}

pub data NodeType : Type 0 where
  invalid_type value link : NodeType

-- The first byte of an empty string is 0.
unfoldable pub decode_value : Text → NodeType × Text
decode_value [] = (invalid_type, [])
decode_value (c ∷ s) =
    if c == b'v' then (value, s) else if c == b'l' then (link, s) else (invalid_type, [])

unfoldable pub encode_value : NodeType → Text → Text
encode_value value s = b'v' ∷ s
encode_value link s = b'l' ∷ s
encode_value invalid_type s = []

unfoldable pub is_link_node : Text → Bool
is_link_node [] = false
is_link_node (c ∷ s) = c == b'l'

unfoldable pub is_value_node : Text → Bool
is_value_node [] = false
is_value_node (c ∷ s) = c == b'v'

-- What `parse_link` answers: the type and the name, its out-parameters, or an error.
pub data Parsed : Type 0 where
  parsed : Text → Text → Parsed
  refused : Status → Parsed

-- The first dot is also the last.
unfoldable pub parse_link : Text → Parsed
parse_link s = elim (cut_at b'.' s) [
  | none ↦ refused meta_tree_link_invalid
  | some (name, type) ↦
      if has_char b'.' type
      then refused meta_tree_link_invalid
      else if is_empty type || is_empty name
      then refused meta_tree_link_invalid
      else parsed type name
]

-- The parameters of the type are left out.
unfoldable pub generate_link : Text → Text → Text
generate_link type name = name ++ b'.' ∷ before_char b'<' type

-- What `DecodeObjectID` answers: the id, or an error.
pub data Decoded : Type 0 where
  decoded : ℕ → Decoded
  undecoded : Status → Decoded

unfoldable pub decode_object_id : Text → Decoded
decode_object_id s =
    let (type, link_value) = decode_value s in
    elim type [
      | link ↦ elim (parse_link link_value) [
        | parsed type_of_value name_of_value ↦ decoded (object_id_from_string name_of_value)
        | refused status ↦ undecoded invalid
      ]
      | _ ↦ undecoded invalid
    ]
