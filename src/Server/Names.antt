-- ===== src/Server/Names.antt =====
-- `PutName`, `GetName` and `DropName` of src/server/server/vineyard_server.cc. The reader of a name in
-- the tree, a function of boost::property_tree, is an argument.
use libvineyard.Base.{
  ℕ, Bool, true, false, not, ◌||◌, Option, none, some, List, [], ◌∷◌, ◌++◌, if◌then◌else◌, Text,
  codes, chain, is_set, ◌≡◌, refl, ◌∙◌, arith, Bool-cases, inl, inr,
}
use libvineyard.Common.Status.{ok, is_ok, vineyard_server_not_ready}
use libvineyard.Meta.Paths.{to_string}
use libvineyard.Meta.Service.{put_op, del_op, TreeLibrary, Service}
use libvineyard.Meta.Service.Requests.{Answers, Event, finished, request_values, request_to_persist}
use libvineyard.Server.Deferred.{DeferredReq, process_deferred}
use libvineyard.Server.Startup.{Server, ensure_ready, Guarded, when_ready}

-- What the callback of `GetName` is given: an id, or that the object does not exist.
pub data NameReply : Type 0 where
  named : ℕ → NameReply
  no_such_name : NameReply

process_deferred-append :
    {Tree : Type 0} (alive : ℕ → Bool) (meta : Tree) (ds es : List (DeferredReq Tree NameReply))
    → process_deferred alive meta (ds ++ es) ≡ (
      (process_deferred alive meta ds).0 ++ (process_deferred alive meta es).0,
      (process_deferred alive meta ds).1 ++ (process_deferred alive meta es).1,
    )
unfolding process_deferred
process_deferred-append alive meta [] es = refl
process_deferred-append alive meta (d ∷ ds) es = elim (Bool-cases (alive d.connection)) [
  | inr gone ↦ rw (gone, process_deferred-append alive meta ds es)
  | inl here ↦ elim (Bool-cases (d.test_fn meta)) [
    | inl holds ↦ rw (here, holds, process_deferred-append alive meta ds es)
    | inr fails ↦ rw (here, fails, process_deferred-append alive meta ds es)
  ]
]

module _ {Tree : Type 0} (find_name : Tree → Text → Option ℕ) where
  unfoldable pub test_task : Text → Tree → Bool
  test_task name meta = is_set (find_name meta name)

  unfoldable pub eval_task : Text → Tree → NameReply
  eval_task name meta = elim (find_name meta name) [ none ↦ no_such_name | some id ↦ named id ]

  abbrev pub waiting_for : ℕ → Text → DeferredReq Tree NameReply
  waiting_for connection name = record {
    connection = connection;
    test_fn = test_task name;
    call_fn = eval_task name;
  }

  -- The callback of `GetName`: the deferred requests after it, and the reply, if there is one yet.
  unfoldable pub answer_name :
      Text
      → Bool
      → ℕ
      → Tree
      → List (DeferredReq Tree NameReply)
      → List (DeferredReq Tree NameReply) × List NameReply
  answer_name name wait connection meta deferred =
      if not wait || test_task name meta
      then (deferred, eval_task name meta ∷ [])
      else (deferred ++ waiting_for connection name ∷ [], [])

  -- A request that waits for a name that is not there is not answered. The next pass over the
  -- deferred requests on a tree that has the name, while the connection is alive, answers it with the
  -- id that the name stands for, after the others, and drops it; a request for a name that is there,
  -- or one that does not wait, is answered at once.
  pub answer_name_lem :
      (name : Text) (wait : Bool) (connection id : ℕ) (alive : ℕ → Bool) (before after : Tree)
      (ds : List (DeferredReq Tree NameReply))
      → find_name before name ≡ none
      → find_name after name ≡ some id
      → alive connection ≡ true
      → let later = process_deferred alive after in
        (answer_name name true connection before ds ≡ (ds ++ waiting_for connection name ∷ [], []))
        × (later (answer_name name true connection before ds).0
            ≡ ((later ds).0 ++ [], (later ds).1 ++ named id ∷ []))
        × (answer_name name wait connection after ds ≡ (ds, named id ∷ []))
        × (answer_name name false connection before ds ≡ (ds, no_such_name ∷ []))
  unfolding answer_name test_task eval_task process_deferred
  answer_name_lem name wait connection id alive before after ds missing there here = (
    rw missing,
    rw missing (
        process_deferred-append alive after ds (waiting_for connection name ∷ [])
        ∙ rw (here, there, eval_task)),
    ground arith,
    rw (missing, eval_task),
  )

-- The status that a request returns stands for the end of it.
unfoldable pub put_name :
    {l : TreeLibrary} → Server → Answers → ℕ → Text → Service l → Option (Service l × List Event)
put_name server a object_id name s =
    if not (ensure_ready server)
    then some (s, finished vineyard_server_not_ready ∷ [])
    else request_to_persist a
        (λ status meta.
          if is_ok status
          then (ok, put_op (codes "names." ++ name) (to_string object_id) 0 ∷ [])
          else (status, []))
        s

module _ {l : TreeLibrary} (find_name : l.Tree → Text → Option ℕ) where
  unfoldable pub drop_name : Server → Answers → Text → Service l → Option (Service l × List Event)
  drop_name server a name s =
      if not (ensure_ready server)
      then some (s, finished vineyard_server_not_ready ∷ [])
      else request_to_persist a
          (λ status meta.
            if is_ok status
            then (
              ok,
              if is_set (find_name meta name) then del_op (codes "names." ++ name) 0 ∷ [] else [],
            )
            else (status, []))
          s

  -- Where the values cannot be had, the callback is not called.
  unfoldable pub get_name :
      Server
      → Answers
      → Text
      → Bool
      → ℕ
      → Service l
      → List (DeferredReq l.Tree NameReply)
      → Guarded (Option (Service l × List (DeferredReq l.Tree NameReply) × List NameReply))
  get_name server a name wait connection s deferred = when_ready server (
      chain (request_values a s) (λ t.
        if is_ok a.values_status
        then (let (after, sent) = answer_name find_name name wait connection t.meta deferred in
            some (t, after, sent))
        else some (t, deferred, [])))
