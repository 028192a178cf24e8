-- ===== src/Meta/Tree/Deleting/Touched.antt =====
-- Deleting edits only what belongs to the objects that are deleted, and all of it.
use libvineyard.Base.{
  ℕ, ◌≡◌, refl, subst, ◌⊎◌, inl, inr, Option, none, some, List, [], ◌∷◌, ◌++◌, Text, codes, chain,
  All, All-append, All-mono, append_assoc, Any, Any-left, Any-right,
}
use libvineyard.Common.Ptree.{PtreeLibrary}
use libvineyard.Common.Uuid.{object_id_to_string}
use libvineyard.Meta.Service.{Op, del, del_op}
use libvineyard.Meta.Tree.{found, data_prefix}
use libvineyard.Meta.Tree.Deleting.{del_node, del_fields, del_data_ops, del_all_ops}
use libvineyard.Meta.Tree.Updating.Transient.{bind_result, found-injective}

-- The key of an object's node, with which those of its fields begin.
abbrev pub node_key : Text → Text
node_key name = data_prefix ++ codes "." ++ name

-- The key of a field.
abbrev pub field_key : Text → Text → Text
field_key name k = node_key name ++ b'.' ∷ k

-- One of the edits deletes the key.
abbrev pub Removes : Text → List Op → Type 0
Removes key ops = Any (λ (op : Op). (op.op ≡ del) × (op.key ≡ key)) ops

module _ (l : PtreeLibrary) where
  -- The node of an object in the tree.
  abbrev pub IsStored : l.Ptree → Text → l.Ptree → Type 0
  IsStored tree name node = chain (l.child data_prefix tree) (l.child name) ≡ some node

  -- The keys of an object: that of its node, and those of the fields that it has.
  abbrev pub IsKeyOf : Text → l.Ptree → Text → Type 0
  IsKeyOf name node key =
      (key ≡ node_key name) ⊎ Any (λ kid. key ≡ field_key name kid.0) (l.children node)

  -- An edit that deletes a key of one of the objects.
  abbrev pub Deletes : l.Ptree → List ℕ → Op → Type 0
  Deletes tree ids op =
      (op.op ≡ del)
      × Any
          (λ id.
            let name = object_id_to_string id in
            (node : l.Ptree) × IsStored tree name node × IsKeyOf name node op.key)
          ids

  -- The object is there, and the edits delete all of its keys.
  abbrev pub IsGone : l.Ptree → List Op → ℕ → Type 0
  IsGone tree ops id =
      let name = object_id_to_string id in
      (node : l.Ptree) × IsStored tree name node
      × Removes (node_key name) ops
      × All (λ kid. Removes (field_key name kid.0) ops) (l.children node)

  abbrev fields_prefix : Text → Text
  fields_prefix name = data_prefix ++ codes "." ++ name ++ codes "."

  field_key-prefix : (name k : Text) → fields_prefix name ++ k ≡ field_key name k
  field_key-prefix name k = rw (append_assoc name (b'.' ∷ []) k)

  del_fields-keys :
      (name : Text) (kids : List (Text × l.Ptree))
      → All
          (λ (op : Op). (op.op ≡ del) × Any (λ kid. op.key ≡ field_key name kid.0) kids)
          (del_fields l (fields_prefix name) kids)
  unfolding del_fields
  del_fields-keys name [] = tt
  del_fields-keys name ((k, c) ∷ kids) = (
    (refl, inl (field_key-prefix name k)),
    All-mono (del_fields l (fields_prefix name) kids) (λ op h. (h.0, inr h.1))
        (del_fields-keys name kids),
  )

  del_fields-All :
      (name : Text) (kids : List (Text × l.Ptree))
      → All (λ kid. Removes (field_key name kid.0) (del_fields l (fields_prefix name) kids)) kids
  unfolding del_fields
  del_fields-All name [] = tt
  del_fields-All name ((k, c) ∷ kids) = (
    inl (refl, field_key-prefix name k),
    All-mono kids (λ kid h. inr h) (del_fields-All name kids),
  )

  -- The edits of one object, from its node.
  abbrev edits_of : Text → l.Ptree → List Op
  edits_of name node =
      del_fields l (fields_prefix name) (l.children node) ++ del_op (node_key name) 0 ∷ []

  edits_of-keys :
      (name : Text) (node : l.Ptree)
      → All (λ (op : Op). (op.op ≡ del) × IsKeyOf name node op.key) (edits_of name node)
  edits_of-keys name node =
      All-append _ (del_fields l (fields_prefix name) (l.children node))
        (del_op (node_key name) 0 ∷ [])
        (All-mono (del_fields l (fields_prefix name) (l.children node)) (λ op h. (h.0, inr h.1))
          (del_fields-keys name (l.children node)))
        ((refl, inl refl), tt)

  edits_of-All :
      (name : Text) (node : l.Ptree)
      → Removes (node_key name) (edits_of name node)
        × All (λ kid. Removes (field_key name kid.0) (edits_of name node)) (l.children node)
  edits_of-All name node = (
    Any-right _ (del_fields l (fields_prefix name) (l.children node))
        (del_op (node_key name) 0 ∷ []) (inl (refl, refl)),
    All-mono (l.children node)
        (λ kid h.
          Any-left _ (del_fields l (fields_prefix name) (l.children node))
            (del_op (node_key name) 0 ∷ []) h)
        (del_fields-All name (l.children node)),
  )

  del_node_inverse :
      (name : Text) (o : Option l.Ptree) (ops : List Op)
      → del_node l name o ≡ found ops
      → (node : l.Ptree) × (o ≡ some node) × (edits_of name node ≡ ops)
  del_node_inverse name none ops h = absurd cc
  del_node_inverse name (some node) ops h = (node, refl, found-injective h)

  del_data_ops-keys :
      (tree : l.Ptree) (name : Text) (ops : List Op)
      → del_data_ops l tree name ≡ found ops
      → (node : l.Ptree) × IsStored tree name node
        × All (λ (op : Op). (op.op ≡ del) × IsKeyOf name node op.key) ops
        × Removes (node_key name) ops
        × All (λ kid. Removes (field_key name kid.0) ops) (l.children node)
  unfolding del_data_ops
  del_data_ops-keys tree name ops h =
      let (node, stored, made) = del_node_inverse name _ ops h in
      let (top, below) = edits_of-All name node in
      (
        node,
        stored,
        subst (All (λ (op : Op). (op.op ≡ del) × IsKeyOf name node op.key)) made
            (edits_of-keys name node),
        subst (Removes (node_key name)) made top,
        subst (λ ops. All (λ kid. Removes (field_key name kid.0) ops) (l.children node)) made below,
      )

  -- The edits that delete objects are deletions of their nodes and of the fields that they have, and all
  -- of these; each of the objects is there.
  pub del_all_ops-Deletes :
      (tree : l.Ptree) (ids : List ℕ) (ops : List Op)
      → del_all_ops l tree ids ≡ found ops
      → All (Deletes tree ids) ops × All (IsGone tree ops) ids
  unfolding del_all_ops
  del_all_ops-Deletes tree [] ops h = (subst (All (Deletes tree [])) (found-injective h) tt, tt)
  del_all_ops-Deletes tree (id ∷ ids) ops h =
      let (first, done, h1) = bind_result (del_data_ops l tree (object_id_to_string id)) _ ops h in
      let (rest, more, h2) = bind_result (del_all_ops l tree ids) _ ops h1 in
      let (node, stored, keys, top, below) =
        del_data_ops-keys tree (object_id_to_string id) first done in
      let (others, gone) = del_all_ops-Deletes tree ids rest more in
      subst (λ ops. All (Deletes tree (id ∷ ids)) ops × All (IsGone tree ops) (id ∷ ids))
        (found-injective h2)
        (
          All-append (Deletes tree (id ∷ ids)) first rest
              (All-mono first (λ op u. (u.0, inl (node, stored, u.1))) keys)
              (All-mono rest (λ op u. (u.0, inr u.1)) others),
          (
            (
              node,
              stored,
              Any-left _ first rest top,
              All-mono (l.children node) (λ kid u. Any-left _ first rest u) below,
            ),
            All-mono ids
                (λ j u. (
                  u.0,
                  u.1,
                  Any-right _ first rest u.2,
                  All-mono (l.children u.0) (λ kid v. Any-right _ first rest v) u.3,
                ))
                gone,
          ),
        )
