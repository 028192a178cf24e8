-- ===== src/Meta/Tree.antt =====
-- src/server/util/meta_tree.cc: the stored metadata is a property tree. Under "data" every object has
-- a node of its name, whose children are the object's fields, and a field's text is a tagged value.
-- `DelData` on the tree itself, with `del_sub_tree`, is called by nothing and is left out.
pub mod Reading
pub mod Updating
pub mod Persisting
pub mod Deleting
pub mod Tests
use libvineyard.Base.{
  ℕ, zero, suc, ◌^◌, Bool, true, false, not, ◌&&◌, ◌||◌, Option, none, some, List, [], ◌∷◌, ◌++◌,
  if◌then◌else◌, is_set, is_empty, Text, codes, length, map, ltb, leb, ◌==◌, chain,
}
use libvineyard.Common.Ptree.{PtreeLibrary}
use libvineyard.Common.Ptree.Fields.{get_text}
use libvineyard.Common.Status.{
  Status, ok, is_ok, assertion_failed, meta_tree_invalid, meta_tree_name_invalid,
  meta_tree_name_not_exists, meta_tree_type_invalid, meta_tree_subtree_not_exists,
}
use libvineyard.Common.Uuid.{object_id_to_string, object_id_from_string, is_space}
use libvineyard.Meta.Links.{NodeType, value, link, invalid_type, decode_value, encode_value}
use libvineyard.Meta.Paths.{text_eq, has_char, starts_with, to_string, is_blank}
use libvineyard.Meta.Service.{Op, put_op, del_op}

-- The exceptions: `ptree_error` of `get`, and `bad_lexical_cast`.
pub data Exception : Type 0 where
  ptree_error : Exception
  bad_lexical_cast : Exception

-- What a function answers: its out-parameters, an error, or an exception.
pub data Result {ℓ} (A : Type ℓ) : Type ℓ where
  found : A → Result A
  failed : Status → Result A
  thrown : Exception → Result A

infixl 5 ◌>>=◌
abbrev pub ◌>>=◌ {ℓ κ} : {A : Type ℓ} {B : Type κ} → Result A → (A → Result B) → Result B
found a >>= f = f a
failed status >>= f = failed status
thrown e >>= f = thrown e

-- `get<T>`, which throws where the optional is empty.
abbrev pub required {ℓ} : {A : Type ℓ} → Option A → Result A
required none = thrown ptree_error
required (some a) = found a

-- `lexical_cast`
abbrev pub cast_of {ℓ} : {A : Type ℓ} → Option A → Result A
cast_of none = thrown bad_lexical_cast
cast_of (some a) = found a

-- `RETURN_ON_ASSERT`
abbrev pub asserted {ℓ} : {A : Type ℓ} → Bool → Result A → Result A
asserted holds r = if holds then r else failed assertion_failed

-- The path of an object's node.
abbrev pub node_path : Text → Text → Text
node_path prefix name = if is_empty name then prefix else prefix ++ b'.' ∷ name

abbrev pub data_prefix : Text
data_prefix = codes "data"

-- The first byte after the digits' sign, and whether one of the digits is not 0.
unfoldable pub nonzero : Text → Bool
nonzero [] = false
nonzero (c ∷ s) =
    let rest = nonzero s in if leb b'0' c && leb c b'9' then not (c == b'0') || rest else false

abbrev unsigned : Text → Text
unsigned [] = []
unsigned (c ∷ s) = if c == b'+' || c == b'-' then s else c ∷ s

unfoldable pub skip_blanks : Text → Text
skip_blanks [] = []
skip_blanks (c ∷ s) = let rest = skip_blanks s in if is_space c then rest else c ∷ s

abbrev is_alpha : ℕ → Bool
is_alpha c = leb b'A' c && leb c b'Z' || leb b'a' c && leb c b'z'

-- `lexical_cast<bool>`, specialised there: a text that begins with a letter is read as a name, false
-- where it is not "true", any other as a number. None is a text without anything to read, for which
-- the result is not initialised, which counts as an error of the tree below.
unfoldable pub cast_bool : Text → Option Bool
cast_bool [] = none
cast_bool (c ∷ s) =
    if is_alpha c
    then some (starts_with (codes "true") (c ∷ s))
    else if is_blank (c ∷ s)
    then none
    else some (nonzero (unsigned (skip_blanks (c ∷ s))))

module _ (l : PtreeLibrary) where
  -- A node without children counts as not there.
  abbrev pub with_children : Option l.Ptree → Result l.Ptree
  with_children none = failed meta_tree_subtree_not_exists
  with_children (some t) =
      if is_empty (l.children t) then failed meta_tree_subtree_not_exists else found t

  unfoldable pub get_sub_tree : l.Ptree → Text → Text → Result l.Ptree
  get_sub_tree tree prefix name =
      if has_char b'.' name
      then failed meta_tree_name_invalid
      else with_children (l.child (node_path prefix name) tree)

  unfoldable pub has_sub_tree : l.Ptree → Text → Text → Bool
  has_sub_tree tree prefix name =
      if has_char b'.' name then false else is_set (l.child (node_path prefix name) tree)

  unfoldable pub get_name : l.Ptree → Result Text
  get_name tree = elim (l.find (codes "id") tree) [
    | none ↦ failed meta_tree_name_not_exists
    | some t ↦ if is_empty (l.children t) then found (l.text t) else failed meta_tree_type_invalid
  ]

  -- `decode_value` with the out-parameter type, which has to be a value's.
  abbrev decoded_type : Bool → Text → Result Text
  decoded_type decode s =
      if decode
      then (let (type, v) = decode_value s in
          elim type [
            | value ↦ found v
            | link ↦ failed meta_tree_type_invalid
            | invalid_type ↦ failed meta_tree_type_invalid
          ])
      else found s

  unfoldable pub get_type : l.Ptree → Bool → Result Text
  get_type tree decode = elim (l.find (codes "typename") tree) [
    | none ↦ failed meta_tree_name_not_exists
    | some t ↦
        if is_empty (l.children t)
        then decoded_type decode (l.text t)
        else failed meta_tree_type_invalid
  ]

  -- The out-parameters, empty where they are not set, whose status the callers suppress.
  unfoldable pub get_type_name : l.Ptree → Text × Text
  get_type_name tree = elim (get_type tree false) [
    | found type ↦ elim (get_name tree) [
      | found name ↦ (type, name)
      | failed s ↦ (type, [])
      | thrown e ↦ (type, [])
    ]
    | failed s ↦ ([], [])
    | thrown e ↦ ([], [])
  ]

  unfoldable pub is_meta_placeholder : l.Ptree → Bool
  is_meta_placeholder tree = length (l.children tree) == 1 && is_set (l.find (codes "id") tree)

  -- `Exists`
  unfoldable pub exists_object : l.Ptree → ℕ → Bool
  exists_object tree id = has_sub_tree tree data_prefix (object_id_to_string id)

  -- The value of the field "transient", which has to be a plain one.
  unfoldable pub read_transient : l.Ptree → Result Bool
  read_transient t = required (get_text l (codes "transient") t) >>= λ text.
      let (type, v) = decode_value text in
      elim type [
        | value ↦ required (cast_bool v)
        | link ↦ failed assertion_failed
        | invalid_type ↦ failed assertion_failed
      ]

  -- `IfPersist`
  unfoldable pub if_persist : l.Ptree → ℕ → Result Bool
  if_persist tree id = get_sub_tree tree data_prefix (object_id_to_string id) >>= λ t.
      read_transient t >>= λ transient. found (not transient)

  -- The copies of an object's fields, under the prefix.
  unfoldable pub copy_fields : Text → List (Text × l.Ptree) → List Op
  copy_fields key_prefix [] = []
  copy_fields key_prefix ((k, c) ∷ kids) =
      put_op (key_prefix ++ k) (l.text c) 0 ∷ copy_fields key_prefix kids

  -- `ShallowCopyOps`: the edits, and whether the object is transient.
  unfoldable pub shallow_copy_ops : l.Ptree → ℕ → ℕ → Result (List Op × Bool)
  shallow_copy_ops tree id target = get_sub_tree tree data_prefix (object_id_to_string id) >>= λ t.
      read_transient t >>= λ transient. found (
        copy_fields (codes "data." ++ object_id_to_string target ++ codes ".") (l.children t),
        transient,
      )

  -- The loop of `FilterAtInstance` over the objects.
  unfoldable pub filter_objects : Text → List (Text × l.Ptree) → List ℕ
  filter_objects instance_id_value [] = []
  filter_objects instance_id_value ((name, t) ∷ kids) =
      let rest = filter_objects instance_id_value kids in
      if not (is_empty (l.children t))
      then elim (get_text l (codes "instance_id") t) [
        | none ↦ rest
        | some v ↦ if text_eq v instance_id_value then object_id_from_string name ∷ rest else rest
      ]
      else rest

  -- `FilterAtInstance`
  unfoldable pub filter_at_instance : l.Ptree → ℕ → List ℕ
  filter_at_instance tree instance_id = elim (l.child data_prefix tree) [
    | none ↦ []
    | some datatree ↦
        filter_objects (encode_value value (to_string instance_id)) (l.children datatree)
  ]
