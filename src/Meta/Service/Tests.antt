-- ===== src/Meta/Service/Tests.antt =====
-- Edits on a concrete tree: the list of what has been put, whose nodes are always there.
use libvineyard.Base.{
  ℕ, ◌≡◌, refl, map, true, false, some, List, [], ◌∷◌, ◌^◌, ◌+◌, chain, if◌then◌else◌, arith, Text,
  codes,
}
use libvineyard.Base.Multimap.{member, insert, equal_range}
use libvineyard.Common.Status.{ok, is_ok}
use libvineyard.Common.Uuid.{object_id_from_string, is_blob}
use libvineyard.Meta.Paths.{cut_at_last, split_dots, text_eq, is_blank, starts_with}
use libvineyard.Meta.Dependencies.{deleteable}
use libvineyard.Meta.Service.{
  Op, put_op, del_op, TreeLibrary, Service, meta_update, update_one, apply_op, del_val, erase_field,
  key_parts, path_parts, id_in_key, daemon_watch,
}
use libvineyard.Meta.Service.Updates.{fresh, daemon_watch-state, state_of}
use libvineyard.Meta.Service.Blobs.{IsFree, meta_update-IsFree}
use libvineyard.Meta.Service.Etcd.{
  WatchEvent, event_at, commit_updates, at_revision, unlocked, watch_ops, watch_ops-commit_updates,
}
use libvineyard.Meta.Service.Requests.{Answers, request_to_persist, request_to_delete}
use libvineyard.Meta.Service.Protocol.{
  Orderly, SaysReady, SaysChosen, requests-Orderly, request_to_delete-fresh,
}

abbrev log : TreeLibrary
log = record {
  Tree = List (Text × Text);
  put_value = λ key val t. (key, val) ∷ t;
  has_node = λ path t. true;
  node_is_empty = λ path t. false;
  erase_below = λ path name t. some t;
  put_below = λ path name val t. some t;
  stoul = λ s. some 1;
}

abbrev service : Service log
service = record {
  meta = [];
  rev = 7;
  dependencies = record { subobjects = []; supobjects = [] };
  instances_list = [];
}

-- The size of a blob that goes, and two values, one of an earlier revision.
abbrev edits : List Op
edits =
    del_op (codes "data.8000000000000010.length") 0
    ∷ put_op (codes "a.b") (codes "1") 7
    ∷ put_op (codes "a.c") (codes "2") 8
    ∷ []

daemon_watch-state_example :
    chain (daemon_watch ok edits service) (λ r. some r.1)
    ≡ (if is_ok ok then state_of (meta_update edits service []) else some service)
daemon_watch-state_example = daemon_watch-state ok edits service

abbrev blob : ℕ
blob = 0x8000_0000_0000_0010

deleted_blob :
    meta_update (del_op (codes "data.8000000000000010.length") 0 ∷ []) service []
    ≡ some (service, blob ∷ [])
unfolding meta_update update_one apply_op del_val erase_field key_parts path_parts id_in_key
    deleteable equal_range insert object_id_from_string cut_at_last split_dots text_eq is_blank
    starts_with is_blob
deleted_blob = refl

meta_update-IsFree_example : IsFree [] blob
unfolding member
meta_update-IsFree_example =
    meta_update-IsFree (del_op (codes "data.8000000000000010.length") 0 ∷ []) service service
      (blob ∷ []) blob deleted_blob refl

abbrev answers : Answers
answers = record {
  lock_status = ok;
  lock_rev = 9;
  values_status = ok;
  values = edits;
  values_rev = 10;
  commit_status = ok;
  rev_after_unlock = some 11;
}

requests-Orderly_example :
    Orderly answers true
      (SaysReady log answers (λ status t. (status, edits)) service)
      (request_to_persist answers (λ status t. (status, edits)) service)
    × Orderly answers false
        (SaysChosen log answers (λ deleted status t. (status, [])) 1 [] false false service)
        (request_to_delete answers 1 [] false false (λ deleted status t. (status, [])) service)
requests-Orderly_example =
    requests-Orderly answers (λ status t. (status, edits)) (λ deleted status t. (status, [])) 1 []
      false false service

request_to_delete-fresh_example :
    request_to_delete answers 1 [] false false (λ deleted status t. (status, [])) service
    ≡ request_to_delete
        (record answers { values = fresh 9 edits })
        1
        []
        false
        false
        (λ deleted status t. (status, []))
        service
request_to_delete-fresh_example =
    request_to_delete-fresh answers (λ deleted status t. (status, [])) 1 [] false false service
      (omega arith)

-- One edit under the lock's key and two others, at the revision 2 ^ 32 + 12.
abbrev late_commits : List WatchEvent
late_commits = map (event_at (2 ^ 32 + 12)) (
    commit_updates (codes "/v/")
      (put_op (codes "lock.1") [] 0 ∷ put_op (codes "a") (codes "1") 0 ∷ del_op (codes "b") 0 ∷ []))

watch_ops-commit_updates_example :
    watch_ops (codes "/v/") (codes "/v/lock") late_commits
    ≡ map (at_revision 12) (
        unlocked (codes "/v/") (codes "/v/lock") (
          put_op (codes "lock.1") [] 0
          ∷ put_op (codes "a") (codes "1") 0
          ∷ del_op (codes "b") 0
          ∷ []))
watch_ops-commit_updates_example =
    watch_ops-commit_updates (codes "/v/") (codes "/v/lock") (2 ^ 32 + 12)
      (put_op (codes "lock.1") [] 0 ∷ put_op (codes "a") (codes "1") 0 ∷ del_op (codes "b") 0 ∷ [])
      late_commits refl
