-- ===== src/Meta/Service.antt =====
-- src/server/services/meta_service.h: how a server applies edits to its copy of the tree. The tree is
-- a `boost::property_tree`, a parameter.
pub mod Blobs
pub mod Etcd
pub mod Heartbeat
pub mod Requests
pub mod Updates
pub mod Protocol
pub mod Tests
use libvineyard.Base.{
  ℕ, zero, suc, ◌+◌, ◌^◌, Bool, true, false, not, ◌&&◌, ◌||◌, Option, none, some, List, [], ◌∷◌,
  ◌++◌, ◌==◌, ltb, leb, if◌then◌else◌, Text, codes, length, is_empty, chain,
}
use libvineyard.Base.Multimap.{member, insert, remove}
use libvineyard.Common.Status.{Status, ok, is_ok}
use libvineyard.Common.Uuid.{invalid_object_id, object_id_from_string, is_blob}
use libvineyard.Meta.Paths.{split_dots, text_eq, starts_with, is_blank, cut_at_last}
use libvineyard.Meta.Dependencies.{Dependencies, inc_ref, deleteable}

-- `op_t`, with its `kv_t`; a revision of 0 marks a local edit.
pub data OpType : Type 0 where
  put del : OpType

pub record Op : Type 0 where
  pub op : OpType
  pub key : Text
  pub val : Text
  pub rev : ℕ

abbrev pub put_op : Text → Text → ℕ → Op
put_op key val rev = record { op = put; key = key; val = val; rev = rev }

abbrev pub del_op : Text → ℕ → Op
del_op key rev = record { op = del; key = key; val = []; rev = rev }

-- What the code uses of a property tree; none is the exception for a path that is not there. With it
-- stands `stoul`, for which none is the exception for a text that is no number.
pub record TreeLibrary : Type 1 where
  pub Tree : Type 0
  pub put_value : Text → Text → Tree → Tree
  pub has_node : Text → Tree → Bool
  pub node_is_empty : Text → Tree → Bool
  pub erase_below : Text → Text → Tree → Option Tree
  pub put_below : Text → Text → Text → Tree → Option Tree
  pub stoul : Text → Option ℕ

-- `IMetaService`
pub record Service (l : TreeLibrary) : Type 0 where
  pub meta : l.Tree
  pub rev : ℕ
  pub dependencies : Dependencies
  pub instances_list : List ℕ

-- The parent and the child in a key. Without a dot the parent is the root.
unfoldable pub key_parts : Text → Text × Text
key_parts key = elim (cut_at_last key) [ none ↦ ([], key) | some parts ↦ parts ]

-- The same for a path that has just lost a child: without a dot, `substr` takes all of it twice.
unfoldable pub path_parts : Text → Text × Text
path_parts path = elim (cut_at_last path) [ none ↦ (path, path) | some parts ↦ parts ]

-- The id in the path to an object's field.
unfoldable pub id_in_key : Text → ℕ
id_in_key parent_path =
    let (v, vs) = split_dots parent_path in
    elim vs [
      | [] ↦ invalid_object_id
      | w ∷ ws ↦ if text_eq v (codes "data") then object_id_from_string w else invalid_object_id
    ]

abbrev is_data : Text → Bool
is_data parent_path = text_eq (split_dots parent_path).0 (codes "data")

-- A blob that goes with its metadata.
abbrev blob_of : ℕ → Option ℕ
blob_of id = if not (id == invalid_object_id) && is_blob id then some id else none

-- The revision says that the edit is known.
abbrev pub is_stale : ℕ → Op → Bool
is_stale rev op = not (op.rev == 0) && leb op.rev rev

abbrev pub with_blob : Option ℕ → List ℕ → List ℕ
with_blob none blobs = blobs
with_blob (some b) blobs = insert b blobs

-- The inner loop of `daemonWatchHandler`: the edits of a revision, and the others.
unfoldable pub take_batch : ℕ → List Op → List Op × List Op
take_batch index [] = ([], [])
take_batch index (op ∷ ops) =
    let (batch, rest) = take_batch index ops in
    if op.rev == index then (op ∷ batch, rest) else ([], op ∷ ops)

-- A node that has lost its last child goes too.
unfoldable pub erase_field : (l : TreeLibrary) → Text → Text → l.Tree → Option l.Tree
erase_field l parent_path child_name t = chain (l.erase_below parent_path child_name t) (λ u.
    if l.node_is_empty parent_path u
    then (let (path, name) = path_parts parent_path in l.erase_below path name u)
    else some u)

module _ {l : TreeLibrary} where
  unfoldable pub put_val : Op → Service l → Service l
  put_val op s = record s {
    dependencies = inc_ref op.key op.val s.dependencies;
    meta = l.put_value op.key op.val s.meta;
  }

  abbrev with_meta : Service l → Option ℕ → l.Tree → Option (Service l × Option ℕ)
  with_meta s blob t = some (record s { meta = t }, blob)

  -- The service after the edit, and the blob to delete.
  unfoldable pub del_val : Op → Service l → Option (Service l × Option ℕ)
  del_val op s =
      let (parent_path, child_name) = key_parts op.key in
      let id = id_in_key parent_path in
      if not (is_data parent_path) || deleteable id s.dependencies.supobjects
      then if not (l.has_node parent_path s.meta)
        then some (s, none)
        else chain (erase_field l parent_path child_name s.meta) (with_meta s (blob_of id))
      else if not (id == invalid_object_id) && text_eq child_name (codes "transient")
      then chain (l.put_below parent_path (codes "transient") (codes "true") s.meta)
          (with_meta s none)
      else some (s, none)

  -- A key with fewer than three parts is read out of range, which is undefined and counts as an
  -- exception here.
  unfoldable pub instance_update : Op → Service l → Option (Service l)
  instance_update op s = elim (split_dots op.key).1 [
    | [] ↦ none
    | w ∷ ws ↦ elim ws [
      | [] ↦ none
      | x ∷ xs ↦
          if text_eq x (codes "hostid")
          then chain (l.stoul w) (λ id. elim op.op [
            | put ↦ some (record s { instances_list = insert id s.instances_list })
            | del ↦ some (record s { instances_list = remove id s.instances_list })
          ])
          else some s
    ]
  ]

  unfoldable pub apply_op : Op → Service l → Option (Service l × Option ℕ)
  apply_op op s = elim op.op [ put ↦ some (put_val op s, none) | del ↦ del_val op s ]

  -- One round of the loop of `metaUpdate`.
  unfoldable pub update_one : Op → Service l → Option (Service l × Option ℕ)
  update_one op s =
      if is_stale s.rev op
      then some (s, none)
      else if is_blank op.key
      then some (s, none)
      else if starts_with (codes "instances.") op.key
      then chain (instance_update op s) (apply_op op)
      else apply_op op s

  -- `metaUpdate`: the service after, and the blobs that the server is told to delete at the end.
  unfoldable pub meta_update : List Op → Service l → List ℕ → Option (Service l × List ℕ)
  meta_update [] s blobs = some (s, blobs)
  meta_update (op ∷ ops) s blobs =
      chain (update_one op s) (λ r. meta_update ops r.0 (with_blob r.1 blobs))

  -- The outer loop, with fuel for as many rounds as there are edits.
  unfoldable pub watch_batches : ℕ → List Op → Service l → Option (Service l × List (List ℕ))
  watch_batches zero ops s = some (s, [])
  watch_batches (suc fuel) [] s = some (s, [])
  watch_batches (suc fuel) (op ∷ ops) s =
      let (batch, rest) = take_batch op.rev (op ∷ ops) in
      chain (meta_update batch s [])
        (λ r. chain (watch_batches fuel rest r.0) (λ q. some (q.0, r.1 ∷ q.1)))

  -- `daemonWatchHandler`: the status, the service after, and what each batch has deleted.
  unfoldable pub daemon_watch :
      Status → List Op → Service l → Option (Status × Service l × List (List ℕ))
  daemon_watch status ops s =
      if is_ok status
      then chain (watch_batches (length ops) ops s) (λ r. some (ok, r.0, r.1))
      else some (status, s, [])
