-- ===== src/Meta/Service/Requests.antt =====
-- The requests of src/server/services/meta_service.h, as what they do in order. What the metadata store
-- answers is an argument, and so are the callbacks.
use libvineyard.Base.{
  ℕ, Bool, Option, none, some, List, [], ◌∷◌, ◌==◌, if◌then◌else◌, is_empty, chain,
}
use libvineyard.Common.Status.{Status, ok, is_ok}
use libvineyard.Meta.Paths.{is_blank}
use libvineyard.Meta.Dependencies.{deletion_of}
use libvineyard.Meta.Service.{Op, put_op, TreeLibrary, Service, meta_update}

-- What a request does that others see.
pub data Event : Type 0 where
  locked : Event
  committed : List Op → Event
  released : Event
  finished : Status → Event

-- What etcd answers in the course of a request: to the lock, with its revision; to the request for
-- the values, with the edits and their revision; to the commit; and to the release, with the revision
-- after it where that succeeds.
pub record Answers : Type 0 where
  pub lock_status : Status
  pub lock_rev : ℕ
  pub values_status : Status
  pub values : List Op
  pub values_rev : ℕ
  pub commit_status : Status
  pub rev_after_unlock : Option ℕ

-- What `requestAll` finds, as edits: keys that are blank are left out.
unfoldable pub printable : List Op → List Op
printable [] = []
printable (kv ∷ kvs) =
    let rest = printable kvs in if is_blank kv.key then rest else put_op kv.key kv.val kv.rev ∷ rest

-- The first callback of a request says which edits to make, or refuses.
abbrev pub Ready : TreeLibrary → Type 0
Ready l = Status → l.Tree → Status × List Op

module _ {l : TreeLibrary} where
  -- `requestValues`: all of them the first time, later those since the last revision.
  unfoldable pub request_values : Answers → Service l → Option (Service l)
  request_values a s =
      if is_ok a.values_status
      then chain (meta_update (if s.rev == 0 then printable a.values else a.values) s [])
          (λ r. some (record r.0 { rev = a.values_rev }))
      else some s

  -- `lock->Release`
  unfoldable pub release : Answers → Service l → Service l
  release a s = elim a.rev_after_unlock [ none ↦ s | some rev ↦ record s { rev = rev } ]

  abbrev pub outcome : Service l → List Event → Option (Service l × List Event)
  outcome s events = some (s, events)

  -- The end of a request: the edits are applied, committed, and the lock is released.
  unfoldable pub commit : Answers → List Op → Service l → Option (Service l × List Event)
  commit a ops s = chain (meta_update ops s []) (λ r.
      outcome (release a r.0) (locked ∷ committed ops ∷ released ∷ finished a.commit_status ∷ []))

  -- `RequestToPersist`
  unfoldable pub request_to_persist :
      Answers → Ready l → Service l → Option (Service l × List Event)
  request_to_persist a ready s =
      if is_ok a.lock_status
      then chain (request_values a s) (λ t.
        let (status, ops) = ready a.values_status t.meta in
        if is_ok status
        then if is_empty ops
          then outcome (release a t) (locked ∷ released ∷ finished ok ∷ [])
          else commit a ops t
        else outcome (release a t) (locked ∷ released ∷ finished status ∷ []))
      else outcome s (finished a.lock_status ∷ [])

  -- `RequestToDelete`; its callback is also given the objects that are deleted. The revision is that
  -- of the lock before the values are requested.
  unfoldable pub request_to_delete :
      Answers
      → ℕ
      → List ℕ
      → Bool
      → Bool
      → (List ℕ → Ready l)
      → Service l
      → Option (Service l × List Event)
  request_to_delete a fuel ids force deep ready s =
      if is_ok a.lock_status
      then chain (request_values a (record s { rev = a.lock_rev })) (λ t.
        chain (deletion_of fuel force deep ids t.dependencies) (λ d.
          let u = record t {
            dependencies = record { subobjects = d.subobjects; supobjects = d.supobjects };
          } in
          let (status, ops) = ready d.delete_set a.values_status u.meta in
          if is_ok status
          then commit a ops u
          else outcome (release a u) (locked ∷ released ∷ finished status ∷ [])))
      else outcome s (finished a.lock_status ∷ [])

  -- `RequestToBulkUpdate`: local edits only.
  unfoldable pub request_to_bulk_update : Ready l → Service l → Option (Service l × List Event)
  request_to_bulk_update ready s =
      let (status, ops) = ready ok s.meta in
      if is_ok status
      then chain (meta_update ops s []) (λ r. outcome r.0 (finished status ∷ []))
      else outcome s (finished status ∷ [])

  -- `RequestToShallowCopy`: the callback also says whether the copy is transient. Otherwise its edits
  -- are persisted, with other answers of etcd.
  unfoldable pub request_to_shallow_copy :
      Answers
      → Answers
      → (l.Tree → Status × List Op × Bool)
      → Service l
      → Option (Service l × List Event)
  request_to_shallow_copy a b ready s = chain (request_values a s) (λ t.
      if is_ok a.values_status
      then (let (status, ops, transient) = ready t.meta in
          if is_ok status
          then if transient
            then chain (meta_update ops t []) (λ r. outcome r.0 (finished ok ∷ []))
            else request_to_persist b (λ _ _. (ok, ops)) t
          else outcome t (finished status ∷ []))
      else outcome t (finished a.values_status ∷ []))
