-- ===== src/Server/Data.antt =====
-- src/server/server/vineyard_server.cc: the requests on objects, over the functions on the metadata
-- tree. How the service's tree is read as a property tree, the
-- same library by another interface, is an argument; so is the id of a copy, which is random.
pub mod Group
pub mod Deletion
pub mod Creating
pub mod Tests
use libvineyard.Base.{
  ℕ, Bool, true, false, not, ◌&&◌, ◌||◌, Option, none, some, List, [], ◌∷◌, ◌++◌, if◌then◌else◌,
  Text, is_empty, chain,
}
use libvineyard.Common.Ptree.{PtreeLibrary, empty_tree}
use libvineyard.Common.Status.{
  Status, ok, is_ok, is_subtree_not_exists, assertion_failed, meta_tree_invalid, object_not_exists,
  vineyard_server_not_ready,
}
use libvineyard.Common.Uuid.{object_id_to_string, is_blob}
use libvineyard.Meta.Service.{Op, TreeLibrary, Service}
use libvineyard.Meta.Service.Requests.{
  Answers, Event, finished, request_values, request_to_delete, request_to_shallow_copy,
}
use libvineyard.Meta.Tree.{
  Result, found, failed, thrown, ptree_error, bad_lexical_cast, exists_object, if_persist,
  shallow_copy_ops, filter_at_instance,
}
use libvineyard.Meta.Tree.Reading.{Got, get_data, list_data}
use libvineyard.Meta.Tree.Deleting.{del_all_ops}
use libvineyard.Server.Deferred.{DeferredReq}
use libvineyard.Server.Startup.{Server, ensure_ready, Guarded, when_ready}

-- `CATCH_PTREE_ERROR`, which does not catch what `lexical_cast` throws. Only `PutDataOps` calls that.
unfoldable pub caught {ℓ} : {A : Type ℓ} → Result A → Result A
caught (found a) = found a
caught (failed status) = failed status
caught (thrown ptree_error) = failed meta_tree_invalid
caught (thrown bad_lexical_cast) = thrown bad_lexical_cast

module _ (l : PtreeLibrary) where
  -- The `test_task` of `GetData`.
  unfoldable pub all_exist : List ℕ → l.Ptree → Bool
  all_exist [] meta = true
  all_exist (id ∷ ids) meta =
      let rest = all_exist ids meta in if exists_object l meta id then rest else false

  abbrev pub with_object : Text → l.Ptree → l.Ptree → l.Ptree
  with_object name sub_tree group =
      if is_empty (l.children sub_tree) then group else l.add_child name sub_tree group

  -- The loop of its `eval_task`: the status of `GetData` is suppressed, and an object that is not there
  -- adds nothing.
  unfoldable pub group_objects : (Text → Option (Got l)) → List ℕ → l.Ptree → Option l.Ptree
  group_objects read [] group = some group
  group_objects read (id ∷ ids) group =
      let name = object_id_to_string id in
      chain (read name) (λ g. group_objects read ids (with_object name g.sub_tree group))

  -- `eval_task`, with the fuel of `get_data`.
  unfoldable pub eval_objects : ℕ → List ℕ → l.Ptree → Option l.Ptree
  eval_objects fuel ids meta = group_objects (get_data l fuel meta) ids (empty_tree l)

  abbrev pub waiting_for_data : ℕ → List ℕ → ℕ → DeferredReq l.Ptree (Option l.Ptree)
  waiting_for_data fuel ids connection = record {
    connection = connection;
    test_fn = all_exist ids;
    call_fn = eval_objects fuel ids;
  }

  -- The callback of `GetData`: the deferred requests after it, and the reply, if there is one yet.
  unfoldable pub answer_data :
      ℕ
      → List ℕ
      → Bool
      → ℕ
      → l.Ptree
      → List (DeferredReq l.Ptree (Option l.Ptree))
      → List (DeferredReq l.Ptree (Option l.Ptree)) × List (Option l.Ptree)
  answer_data fuel ids wait connection meta deferred =
      if not wait || all_exist ids meta
      then (deferred, eval_objects fuel ids meta ∷ [])
      else (deferred ++ waiting_for_data fuel ids connection ∷ [], [])

  -- The callback of `IfPersist`: where the object cannot be read, the answer is false with the error.
  unfoldable pub answer_if_persist : ℕ → l.Ptree → Status × Bool
  answer_if_persist id meta = elim (caught (if_persist l meta id)) [
    | found persist ↦ (ok, persist)
    | failed status ↦ (status, false)
    | thrown e ↦ (meta_tree_invalid, false)
  ]

  -- The callback of `Exists`.
  unfoldable pub answer_exists : ℕ → l.Ptree → Status × Bool
  answer_exists id meta = (ok, exists_object l meta id)

  -- The callback of `DelData` that makes the edits: an object that is not there is reported as that.
  unfoldable pub del_ready : List ℕ → Status → l.Ptree → Status × List Op
  del_ready ids_to_delete status meta =
      if is_ok status
      then elim (caught (del_all_ops l meta ids_to_delete)) [
        | found ops ↦ (ok, ops)
        | failed s ↦ (if is_subtree_not_exists s then object_not_exists else s, [])
        | thrown e ↦ (meta_tree_invalid, [])
      ]
      else (status, [])

  -- That of `ShallowCopy`, which also says whether the copy is transient.
  unfoldable pub copy_ready : ℕ → ℕ → l.Ptree → Status × List Op × Bool
  copy_ready id target meta = elim (caught (shallow_copy_ops l meta id target)) [
    | found r ↦ (ok, r.0, r.1)
    | failed status ↦ (status, [], false)
    | thrown e ↦ (meta_tree_invalid, [], false)
  ]

module _ (l : PtreeLibrary) {s : TreeLibrary} (view : s.Tree → l.Ptree) where
  -- `RequestToGetData`: the service after it, and the status that the callback is given. On an error the
  -- callbacks of the server only log.
  unfoldable pub request_to_get_data : Bool → Answers → Service s → Option (Service s × Status)
  request_to_get_data sync_remote a t =
      if sync_remote
      then chain (request_values a t) (λ u. some (u, a.values_status))
      else some (t, ok)

  -- `GetData`
  unfoldable pub get_objects :
      Server
      → Answers
      → ℕ
      → List ℕ
      → Bool
      → Bool
      → ℕ
      → Service s
      → List (DeferredReq l.Ptree (Option l.Ptree))
      → Guarded
          (Option (Service s × List (DeferredReq l.Ptree (Option l.Ptree)) × List (Option l.Ptree)))
  get_objects server a fuel ids sync_remote wait connection t deferred = when_ready server (
      chain (request_to_get_data sync_remote a t) (λ r.
        if is_ok r.1
        then (let (after, sent) = answer_data l fuel ids wait connection (view r.0.meta) deferred in
            some (r.0, after, sent))
        else some (r.0, deferred, [])))

  -- `ListData`: a status that is not ok stops the server, which is none here.
  unfoldable pub list_objects_of :
      Server → ℕ → Option (Text → Bool) → ℕ → Service s → Guarded (Option l.Ptree)
  list_objects_of server fuel pattern limit t = when_ready server (
      chain (list_data l fuel (view t.meta) pattern limit)
        (λ g. if is_ok g.status then some g.sub_tree else none))

  -- `IfPersist` reads the server's own copy of the tree.
  unfoldable pub if_persist_of : Server → ℕ → Service s → Guarded (Status × Bool)
  if_persist_of server id t = when_ready server (answer_if_persist l id (view t.meta))

  -- `Exists` asks etcd first.
  unfoldable pub exists_of :
      Server → Answers → ℕ → Service s → Guarded (Option (Service s × Option (Status × Bool)))
  exists_of server a id t = when_ready server (
      chain (request_to_get_data true a t)
        (λ r. some (r.0, (if is_ok r.1 then some (answer_exists l id (view r.0.meta)) else none))))

  -- `ShallowCopy`: blobs are refused at once. The status that a request returns stands for its end.
  unfoldable pub shallow_copy :
      Server → Answers → Answers → ℕ → ℕ → Service s → Option (Service s × List Event)
  shallow_copy server a b id target t =
      if not (ensure_ready server)
      then some (t, finished vineyard_server_not_ready ∷ [])
      else if is_blob id
      then some (t, finished assertion_failed ∷ [])
      else request_to_shallow_copy a b (λ meta. copy_ready l id target (view meta)) t

  -- `DelData`
  unfoldable pub del_data :
      Server → Answers → ℕ → List ℕ → Bool → Bool → Service s → Option (Service s × List Event)
  del_data server a fuel ids force deep t =
      if ensure_ready server
      then request_to_delete a fuel ids force deep
          (λ ids_to_delete status meta. del_ready l ids_to_delete status (view meta)) t
      else some (t, finished vineyard_server_not_ready ∷ [])

  -- `DeleteAllAt`, of an instance that has gone.
  unfoldable pub delete_all_at :
      Server → Answers → ℕ → l.Ptree → ℕ → Service s → Option (Service s × List Event)
  delete_all_at server a fuel meta instance_id t =
      del_data server a fuel (filter_at_instance l meta instance_id) true true t
