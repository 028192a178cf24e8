-- ===== src/Meta/Tree/Deleting.antt =====
-- src/server/util/meta_tree.cc: the edits that delete objects, and what they leave.
pub mod Touched
use libvineyard.Base.{
  ℕ, ◌≡◌, refl, Bool, true, false, Option, none, some, List, [], ◌∷◌, ◌++◌, if◌then◌else◌, Text,
  codes, map, chain, arith,
}
use libvineyard.Common.Ptree.{PtreeLibrary}
use libvineyard.Common.Status.{Status, meta_tree_subtree_not_exists}
use libvineyard.Common.Uuid.{object_id_to_string}
use libvineyard.Meta.Service.{Op, del_op}
use libvineyard.Meta.Tree.{Result, found, failed, thrown, ◌>>=◌, data_prefix}

module _ (l : PtreeLibrary) where
  -- The loop over the fields.
  unfoldable pub del_fields : Text → List (Text × l.Ptree) → List Op
  del_fields key_prefix [] = []
  del_fields key_prefix ((k, c) ∷ kids) = del_op (key_prefix ++ k) 0 ∷ del_fields key_prefix kids

  abbrev pub del_node : Text → Option l.Ptree → Result (List Op)
  del_node name none = failed meta_tree_subtree_not_exists
  del_node name (some node) = found (
      del_fields (data_prefix ++ codes "." ++ name ++ codes ".") (l.children node)
      ++ del_op (data_prefix ++ codes "." ++ name) 0 ∷ [])

  -- `DelDataOps` of a name: its fields, and its node at last.
  unfoldable pub del_data_ops : l.Ptree → Text → Result (List Op)
  del_data_ops tree name = del_node name (chain (l.child data_prefix tree) (l.child name))

  -- `DelDataOps` of a set of ids; an error ends it. The edits before it stay in the out-parameter, which
  -- the caller then does not use.
  unfoldable pub del_all_ops : l.Ptree → List ℕ → Result (List Op)
  del_all_ops tree [] = found []
  del_all_ops tree (id ∷ ids) = del_data_ops tree (object_id_to_string id) >>= λ ops.
      del_all_ops tree ids >>= λ rest. found (ops ++ rest)
