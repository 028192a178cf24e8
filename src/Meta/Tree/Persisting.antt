-- ===== src/Meta/Tree/Persisting.antt =====
-- src/server/util/meta_tree.cc: making an object and its members persistent, as edits.
pub mod Flat
use libvineyard.Base.{
  ℕ, Bool, true, false, not, Option, none, some, List, [], ◌∷◌, ◌++◌, if◌then◌else◌, is_empty, Text,
  codes, chain,
}
use libvineyard.Common.Ptree.{PtreeLibrary, empty_tree}
use libvineyard.Common.Ptree.Fields.{get_text}
use libvineyard.Common.Status.{Status, is_ok}
use libvineyard.Common.Uuid.{object_id_to_string, object_id_from_string, is_blob}
use libvineyard.Meta.Paths.{text_eq}
use libvineyard.Meta.Service.{Op}
use libvineyard.Meta.Tree.{Result, found, failed, thrown, ◌>>=◌, required, get_type_name}
use libvineyard.Meta.Tree.Reading.{Got, get_data}
use libvineyard.Meta.Tree.Updating.{value_ops, link_op}

module _ (l : PtreeLibrary) where
  -- The loop of `persist_meta_tree`, with what each member's call gives.
  unfoldable pub persist_fields : List (Text × l.Ptree × Result l.Ptree) → l.Ptree → Result l.Ptree
  persist_fields [] diff = found diff
  persist_fields ((k, t, persisted) ∷ kids) diff =
      if not (is_empty (l.children t))
      then (persisted >>= λ sub_diff.
          persist_fields kids
            (if is_empty (l.children sub_diff) then diff else l.add_child k sub_diff diff))
      else persist_fields kids (
          if text_eq k (codes "transient")
          then l.put (codes "transient") (l.of_bool false) diff
          else l.put k (l.text t) diff)

  -- `persist_meta_tree`: what is persistent already, and a blob, give nothing.
  unfoldable pub persist_node : l.Ptree → List (Text × l.Ptree × Result l.Ptree) → Result l.Ptree
  persist_node sub_tree kids =
      required (chain (get_text l (codes "transient") sub_tree) l.to_bool) >>= λ transient.
      if transient
      then (required (get_text l (codes "id") sub_tree) >>= λ id.
          if is_blob (object_id_from_string id)
          then found (empty_tree l)
          else persist_fields kids (empty_tree l))
      else found (empty_tree l)

  unfoldable pub persist_meta_tree : l.Ptree → Result l.Ptree
  persist_meta_tree = l.fold persist_node

  -- The loop of `generate_persist_ops`, with the edits that each member's call gives for its name.
  unfoldable pub persist_ops_of : Text → List (Text × l.Ptree × (Text → List Op)) → List Op
  persist_ops_of key_prefix [] = []
  persist_ops_of key_prefix ((k, t, ops_of) ∷ kids) =
      let rest = persist_ops_of key_prefix kids in
      if not (is_empty (l.children t))
      then (let (sub_type, sub_name) = get_type_name l t in
          ops_of sub_name ++ link_op l key_prefix k (sub_type, sub_name) ∷ rest)
      else value_ops l key_prefix k (l.text t) ++ rest

  unfoldable pub generate_persist_ops : l.Ptree → Text → List Op
  generate_persist_ops =
      l.fold (λ diff kids name. persist_ops_of (codes "data." ++ name ++ codes ".") kids)

  -- `PersistOps`, of what `GetData` gives.
  unfoldable pub persist_ops : ℕ → l.Ptree → ℕ → Option (Result (List Op))
  persist_ops fuel tree id =
      let name = object_id_to_string id in
      chain (get_data l fuel tree name) (λ g. some (
        if is_ok g.status
        then (persist_meta_tree g.sub_tree >>= λ diff.
            found (if is_empty (l.children diff) then [] else generate_persist_ops diff name))
        else failed g.status))
