-- ===== src/Meta/Tree/Updating.antt =====
-- src/server/util/meta_tree.cc: what changes when a client creates or updates an object, as edits.
pub mod Transient
pub mod Fresh
use libvineyard.Base.{
  ℕ, ◌^◌, Bool, true, false, not, ◌&&◌, ◌||◌, Option, none, some, List, [], ◌∷◌, ◌++◌,
  if◌then◌else◌, is_set, is_empty, Text, codes, ◌==◌, chain,
}
use libvineyard.Common.Ptree.{PtreeLibrary, empty_tree}
use libvineyard.Common.Ptree.Fields.{get_text}
use libvineyard.Common.Status.{Status, ok, is_ok, is_subtree_not_exists, meta_tree_invalid}
use libvineyard.Common.Uuid.{object_id_to_string, unspecified_instance_id}
use libvineyard.Meta.Links.{
  NodeType, value, link, invalid_type, decode_value, encode_value, is_link_node, generate_link,
}
use libvineyard.Meta.Paths.{text_eq}
use libvineyard.Meta.Service.{Op, put_op}
use libvineyard.Meta.Tree.{
  Result, found, failed, thrown, ◌>>=◌, required, cast_of, get_sub_tree, has_sub_tree, get_name,
  get_type, get_type_name, is_meta_placeholder, data_prefix,
}

-- The keys that are not compared.
abbrev pub is_fixed : Text → Bool
is_fixed k =
    text_eq k (codes "id") || (text_eq k (codes "typename") || text_eq k (codes "instance_id"))

-- Whether a field of an object that is there is updated, from its old value and the new one.
unfoldable pub requires_update : Text → Text → Text → Bool
requires_update k old new =
    if text_eq k (codes "transient")
    then text_eq old (codes "true") && not (text_eq old new)
    else not (text_eq old new)

-- What `diff_data_meta_tree` gives: the differences, and the instance of the object and its members.
pub record Diff (l : PtreeLibrary) : Type 0 where
  pub diff : l.Ptree
  pub instance_id : ℕ

-- The old object: there, or not there.
pub data Old (P : Type 0) : Type 0 where
  present : P → Old P
  absent : Old P

abbrev pub is_absent : {P : Type 0} → Old P → Bool
is_absent (present t) = false
is_absent absent = true

-- Other errors than that it is not there are the caller's.
abbrev pub old_of : {P : Type 0} → Result P → Result (Old P)
old_of (found t) = found (present t)
old_of (failed status) = if is_subtree_not_exists status then found absent else failed status
old_of (thrown e) = thrown e

-- The members of a node, each with the differences that a call with its name gives.
abbrev pub Members : PtreeLibrary → Type 0
Members l = List (Text × l.Ptree × (Text → Result (Diff l)))

module _ (l : PtreeLibrary) where
  -- A plain field of an object that is there, with its old text.
  abbrev pub update_field : Option Text → Text → Text → l.Ptree → l.Ptree
  update_field none k new diff = l.put k new diff
  update_field (some old_value) k new diff =
      if requires_update k (decode_value old_value).1 new then l.put k new diff else diff

  unfoldable pub diff_value : Old l.Ptree → Text → Text → l.Ptree → l.Ptree
  diff_value absent k new diff = l.put k new diff
  diff_value (present old) k new diff = update_field (get_text l k old) k new diff

  -- The field that a member replaces has to be a link.
  abbrev pub no_value : Option l.Ptree → Bool
  no_value none = true
  no_value (some t) = is_link_node (l.text t)

  abbrev pub may_link : Old l.Ptree → Text → Bool
  may_link absent k = true
  may_link (present old) k = no_value (l.find k old)

  -- What a member adds: its own differences, if there are any, or in a new object all of it.
  unfoldable pub diff_member :
      Old l.Ptree → Text → l.Ptree → Text → l.Ptree → l.Ptree → Result l.Ptree
  diff_member (present old) k sub sub_name sub_diff diff =
      found (if is_empty (l.children sub_diff) then diff else l.add_child k sub_diff diff)
  diff_member absent k sub sub_name sub_diff diff =
      if is_meta_placeholder l sub
      then found (l.add_child k sub_diff diff)
      else get_type l sub false >>= λ type. get_name l sub >>= λ name.
          found
            (l.add_child k (l.put (codes "typename") type (l.put (codes "id") name sub_diff)) diff)

  -- The loop over the fields, with the differences and the instance so far.
  unfoldable pub diff_fields : Old l.Ptree → Members l → Diff l → Result (Diff l)
  diff_fields old [] d = found d
  diff_fields old ((k, t, diff_of) ∷ kids) d =
      if is_fixed k
      then diff_fields old kids d
      else if is_empty (l.children t)
      then diff_fields old kids (record d { diff = diff_value old k (l.text t) d.diff })
      else if may_link old k
      then (get_name l t >>= λ sub_name. diff_of sub_name >>= λ sub.
          diff_member old k t sub_name sub.diff d.diff >>= λ diff. diff_fields old kids (record {
            diff = diff;
            instance_id =
                if d.instance_id == sub.instance_id then d.instance_id else unspecified_instance_id;
          }))
      else failed meta_tree_invalid

  -- A placeholder stands for an object that has to be there.
  unfoldable pub diff_placeholder :
      (Text → Option ℕ) → Old l.Ptree → Status → Text → Result (Diff l)
  diff_placeholder cast absent status name = failed status
  diff_placeholder cast (present old) status name = get_type l old true >>= λ type.
      required (get_text l (codes "instance_id") old) >>= λ text.
      cast_of (cast (decode_value text).1) >>= λ instance_id. found (record {
        diff = l.put (codes "typename") type (l.put (codes "id") name (empty_tree l));
        instance_id = instance_id;
      })

  -- At the end a new object gets its name, its type and its instance.
  unfoldable pub finish_diff : Old l.Ptree → Text → l.Ptree → Diff l → Result (Diff l)
  finish_diff old name sub_tree d =
      if not (is_empty (l.children d.diff)) && is_absent old
      then (get_type l sub_tree false >>= λ type. found (record d {
        diff =
            l.put (codes "instance_id") (l.of_number d.instance_id)
              (l.put (codes "typename") type (l.put (codes "id") name d.diff));
      }))
      else found d

  -- The start of the differences: a new object is transient.
  abbrev pub first_diff : Old l.Ptree → l.Ptree
  first_diff (present old) = empty_tree l
  first_diff absent = l.put (codes "transient") (l.of_bool true) (empty_tree l)

  abbrev pub status_of : Result l.Ptree → Status
  status_of (found t) = ok
  status_of (failed status) = status
  status_of (thrown e) = ok

  -- A node with its members against what is looked up for its name. The cast is
  -- `lexical_cast<InstanceID>`.
  unfoldable pub diff_against :
      (Text → Option ℕ) → l.Ptree → Members l → Text → Result l.Ptree → Result (Diff l)
  diff_against cast sub_tree kids name looked = old_of looked >>= λ old.
      if is_meta_placeholder l sub_tree
      then diff_placeholder cast old (status_of looked) name
      else (required (chain (get_text l (codes "instance_id") sub_tree) (l.to_number (2 ^ 64)))
          >>= λ instance_id.
              diff_fields old kids (record { diff = first_diff old; instance_id = instance_id })
              >>= λ d. finish_diff old name sub_tree d)

  -- `diff_data_meta_tree` of a node with its members.
  unfoldable pub diff_node :
      (Text → Option ℕ) → l.Ptree → l.Ptree → Members l → Text → Result (Diff l)
  diff_node cast meta sub_tree kids name =
      diff_against cast sub_tree kids name (get_sub_tree l meta data_prefix name)

  unfoldable pub diff_data_meta_tree :
      (Text → Option ℕ) → l.Ptree → l.Ptree → Text → Result (Diff l)
  diff_data_meta_tree cast meta = l.fold (diff_node cast meta)

  -- The edits of a field that is no member; the id is not stored.
  abbrev pub value_ops : Text → Text → Text → List Op
  value_ops key_prefix k v =
      if text_eq k (codes "id") then [] else put_op (key_prefix ++ k) (encode_value value v) 0 ∷ []

  -- The edit of a field that links to a member.
  abbrev pub link_op : Text → Text → Text × Text → Op
  link_op key_prefix k (sub_type, sub_name) =
      put_op (key_prefix ++ k) (encode_value link (generate_link sub_type sub_name)) 0

  -- The loop of `generate_put_ops`. A member's own edits are made if the object is not there.
  unfoldable pub put_fields : Bool → Text → List (Text × l.Ptree × (Text → List Op)) → List Op
  put_fields is_there key_prefix [] = []
  put_fields is_there key_prefix ((k, t, ops_of) ∷ kids) =
      let rest = put_fields is_there key_prefix kids in
      if not (is_empty (l.children t))
      then (let (sub_type, sub_name) = get_type_name l t in
          (if is_there then [] else ops_of sub_name)
          ++ link_op key_prefix k (sub_type, sub_name) ∷ rest)
      else value_ops key_prefix k (l.text t) ++ rest

  unfoldable pub generate_put_ops : l.Ptree → l.Ptree → Text → List Op
  generate_put_ops meta = l.fold (λ diff kids name.
      put_fields (has_sub_tree l meta data_prefix name) (codes "data." ++ name ++ codes ".") kids)

  -- `PutDataOps`: the edits, and the instance that it has computed.
  unfoldable pub put_data_ops : (Text → Option ℕ) → l.Ptree → ℕ → l.Ptree → Result (List Op × ℕ)
  put_data_ops cast tree id sub_tree =
      let name = object_id_to_string id in
      diff_data_meta_tree cast tree sub_tree name >>= λ d. found (
        (if is_empty (l.children d.diff) then [] else generate_put_ops tree d.diff name),
        d.instance_id,
      )
