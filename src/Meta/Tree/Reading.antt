-- ===== src/Meta/Tree/Reading.antt =====
-- src/server/util/meta_tree.cc: an object's metadata with those of its members, and the objects whose
-- type matches a pattern.
pub mod Total
pub mod Flat
pub mod Listing
pub mod Complete
use libvineyard.Base.{
  ℕ, zero, suc, Bool, true, false, Option, none, some, List, [], ◌∷◌, ◌++◌, if◌then◌else◌, is_empty,
  Text, codes, leb, ◌==◌, chain,
}
use libvineyard.Common.Ptree.{PtreeLibrary, empty_tree}
use libvineyard.Common.Status.{Status, ok, is_ok, meta_tree_type_invalid, meta_tree_invalid}
use libvineyard.Common.Uuid.{object_id_to_string, object_id_from_string}
use libvineyard.Meta.Links.{
  NodeType, value, link, invalid_type, decode_value, parsed, refused, parse_link,
}
use libvineyard.Meta.Tree.{
  Result, found, failed, thrown, get_sub_tree, get_type, data_prefix, ◌>>=◌,
}

-- What `GetData` leaves: a status, and the tree in its out-parameter.
pub record Got (l : PtreeLibrary) : Type 0 where
  pub status : Status
  pub sub_tree : l.Ptree

abbrev pub got : {l : PtreeLibrary} → Status → l.Ptree → Got l
got status sub_tree = record { status = status; sub_tree = sub_tree }

-- A field's text taken apart: a plain value, the name of the object that it links to, a link that is
-- refused, or no tag.
pub data Field : Type 0 where
  plain : Text → Field
  linked : Text → Field
  bad_link : Status → Field
  untagged : Field

unfoldable pub field_of : Text → Field
field_of s =
    let (type, v) = decode_value s in
    elim type [
      | value ↦ plain v
      | link ↦ elim (parse_link v) [
        | parsed sub_type sub_name ↦ linked (object_id_to_string (object_id_from_string sub_name))
        | refused status ↦ bad_link status
      ]
      | invalid_type ↦ untagged
    ]

module _ (l : PtreeLibrary) where
  -- The loop over the fields, with what has been put into the tree. A link is followed by the argument.
  unfoldable pub get_fields :
      (Text → Option (Got l)) → List (Text × l.Ptree) → l.Ptree → Option (Got l)
  get_fields follow [] sub_tree = some (got ok sub_tree)
  get_fields follow ((k, c) ∷ kids) sub_tree = elim (field_of (l.text c)) [
    | plain v ↦ get_fields follow kids (l.put k v sub_tree)
    | linked name ↦ chain (follow name) (λ g.
        if is_ok g.status
        then get_fields follow kids (l.add_child k g.sub_tree sub_tree)
        else some (got g.status (empty_tree l)))
    | bad_link status ↦ some (got status (empty_tree l))
    | untagged ↦ some (got meta_tree_type_invalid sub_tree)
  ]

  -- At the end the name is put, where there is no error.
  unfoldable pub with_id : Text → Got l → Got l
  with_id name g = if is_ok g.status then got ok (l.put (codes "id") name g.sub_tree) else g

  -- `GetData`, with fuel for the objects on a chain of links; none is a chain that is longer.
  unfoldable pub get_data : ℕ → l.Ptree → Text → Option (Got l)
  get_data zero tree name = none
  get_data (suc fuel) tree name = elim (get_sub_tree l tree data_prefix name) [
    | failed status ↦ some (got status (empty_tree l))
    | thrown e ↦ none
    | found t ↦
        chain (get_fields (get_data fuel tree) (l.children t) (empty_tree l))
          (λ g. some (with_id name g))
  ]

  -- An error of `get_type` ends the loop.
  abbrev pub on_type : l.Ptree → Result Text → (Text → Option (Got l)) → Option (Got l)
  on_type tree_group (found type) f = f type
  on_type tree_group (failed status) f = some (got status tree_group)
  on_type tree_group (thrown e) f = none

  -- The loop of `ListData`: what matches a type is an argument, the regular expression or the wildcard
  -- pattern that is compiled before it.
  unfoldable pub list_objects :
      (Text → Bool)
      → ℕ
      → (Text → Option (Got l))
      → List (Text × l.Ptree)
      → ℕ
      → l.Ptree
      → Option (Got l)
  list_objects matches limit follow [] number tree_group = some (got ok tree_group)
  list_objects matches limit follow ((name, t) ∷ kids) number tree_group =
      let skip = list_objects matches limit follow kids number tree_group in
      if leb limit number
      then some (got ok tree_group)
      else if is_empty (l.children t)
      then some (got meta_tree_invalid tree_group)
      else on_type tree_group (get_type l t true) (λ type.
        if matches type
        then chain (follow name) (λ g.
          if is_ok g.status
          then list_objects matches limit follow kids (suc number)
              (l.add_child name g.sub_tree tree_group)
          else some (got g.status tree_group))
        else skip)

  abbrev pub list_below : ℕ → l.Ptree → Option (Text → Bool) → ℕ → Option l.Ptree → Option (Got l)
  list_below fuel tree pattern limit none = some (got ok (empty_tree l))
  list_below fuel tree none limit (some metas) = some (got ok (empty_tree l))
  list_below fuel tree (some matches) limit (some metas) =
      list_objects matches limit (get_data fuel tree) (l.children metas) 0 (empty_tree l)

  -- `ListData`; none for the pattern is a regular expression that does not compile.
  unfoldable pub list_data : ℕ → l.Ptree → Option (Text → Bool) → ℕ → Option (Got l)
  list_data fuel tree pattern limit = list_below fuel tree pattern limit (l.child data_prefix tree)
