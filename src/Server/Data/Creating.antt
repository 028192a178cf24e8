-- ===== src/Server/Data/Creating.antt =====
-- `CreateData` and `Persist` of src/server/server/vineyard_server.cc.
use libvineyard.Base.{
  not, ℕ, Option, none, some, List, [], ◌∷◌, ◌++◌, if◌then◌else◌, Text, codes, is_empty, is_set,
  chain,
}
use libvineyard.Common.Ptree.{PtreeLibrary}
use libvineyard.Common.Ptree.Fields.{get_text}
use libvineyard.Common.Status.{
  Status, ok, is_ok, vineyard_server_not_ready, assertion_failed, meta_tree_invalid,
}
use libvineyard.Common.Uuid.{object_id_from_string, invalid_object_id, unspecified_instance_id}
use libvineyard.Meta.Paths.{text_eq}
use libvineyard.Meta.Service.{Op, TreeLibrary, Service, meta_update}
use libvineyard.Meta.Service.Requests.{Answers, Event, finished, request_values, request_to_persist}
use libvineyard.Meta.Tree.{found, failed, thrown}
use libvineyard.Meta.Tree.Updating.{put_data_ops}
use libvineyard.Meta.Tree.Persisting.{persist_ops}
use libvineyard.Server.Data.{caught}
use libvineyard.Server.Startup.{Server, ensure_ready}

-- A call of the callback of `CreateData`: a status, an id, and an instance, which is not set where
-- `PutDataOps` has failed.
pub record Created : Type 0 where
  pub status : Status
  pub id : ℕ
  pub instance_id : Option ℕ

-- How `CreateData` ends, with the calls of its callback: the request is refused by the status that is
-- returned, or is done; it reads through the end iterator, or an exception leaves it.
pub data Creation (S : Type 0) : Type 0 where
  is_refused : List Created → Status → Creation S
  is_done : List Created → S → Creation S
  is_undefined : List Created → Creation S
  is_thrown : List Created → Creation S

abbrev pub no_typename : Created
no_typename = record {
  status = meta_tree_invalid;
  id = invalid_object_id;
  instance_id = some unspecified_instance_id;
}

module _ (l : PtreeLibrary) where
  -- The id: a blob has one, any other object gets the one that is generated.
  unfoldable pub id_of_new : ℕ → Text → l.Ptree → Option ℕ
  id_of_new generated type tree =
      if text_eq type (codes "vineyard::Blob")
      then chain (get_text l (codes "id") tree) (λ s. some (object_id_from_string s))
      else some generated

  -- The callback of `Persist` that makes the edits, with the fuel of `get_data`.
  unfoldable pub persist_ready : ℕ → ℕ → Status → l.Ptree → Option (Status × List Op)
  persist_ready fuel id status meta =
      if is_ok status
      then chain (persist_ops l fuel meta id) (λ r. elim (caught r) [
        | found ops ↦ some (ok, ops)
        | failed s ↦ some (s, [])
        | thrown e ↦ none
      ])
      else some (status, [])

module _ (l : PtreeLibrary) {s : TreeLibrary} (view : s.Tree → l.Ptree) where
  -- The end of the bulk update.
  abbrev pub updated : List Created → ℕ → ℕ → Option (Service s × List ℕ) → Creation (Service s)
  updated calls id instance_id none = is_thrown calls
  updated calls id instance_id (some (t, blobs)) =
      is_done (calls ++ record { status = ok; id = id; instance_id = some instance_id } ∷ []) t

  -- `RequestToBulkUpdate` with `PutDataOps`.
  unfoldable pub put_data :
      (Text → Option ℕ) → List Created → ℕ → l.Ptree → Service s → Creation (Service s)
  put_data cast calls id tree t = elim (caught (put_data_ops l cast (view t.meta) id tree)) [
    | found r ↦ updated calls id r.1 (meta_update r.0 t [])
    | failed status ↦
        is_done (calls ++ record { status = status; id = id; instance_id = none } ∷ []) t
    | thrown e ↦ is_thrown calls
  ]

  -- What follows the test of the type's node, whatever that has found: its callback answers ok.
  abbrev pub create_typed :
      (Text → Option ℕ) → List Created → ℕ → Text → l.Ptree → Service s → Creation (Service s)
  create_typed cast calls generated type tree t = elim (id_of_new l generated type tree) [
    | none ↦ is_refused calls assertion_failed
    | some id ↦
        if is_set (l.find (codes "instance_id") tree)
        then put_data cast calls id tree t
        else is_refused calls assertion_failed
  ]

  -- `CreateData`
  unfoldable pub create_data :
      Server → (Text → Option ℕ) → ℕ → l.Ptree → Service s → Creation (Service s)
  create_data server cast generated tree t =
      if not (ensure_ready server)
      then is_refused [] vineyard_server_not_ready
      else elim (l.find (codes "typename") tree) [
        | none ↦ is_undefined (no_typename ∷ [])
        | some node ↦
            create_typed cast (if is_empty (l.children node) then [] else no_typename ∷ [])
              generated (l.text node) tree t
      ]

  -- `Persist`. The callback is given the tree after the values of etcd; none is also an exception there.
  unfoldable pub persist_data :
      Server → Answers → ℕ → ℕ → Service s → Option (Service s × List Event)
  persist_data server a fuel id t =
      if not (ensure_ready server)
      then some (t, finished vineyard_server_not_ready ∷ [])
      else if is_ok a.lock_status
      then chain (request_values a t) (λ u.
        chain (persist_ready l fuel id a.values_status (view u.meta))
          (λ r. request_to_persist a (λ status meta. r) t))
      else request_to_persist a (λ status meta. (status, [])) t
