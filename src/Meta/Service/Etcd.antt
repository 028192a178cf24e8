-- ===== src/Meta/Service/Etcd.antt =====
-- src/server/services/etcd_meta_service.cc: edits as transactions of etcd, and the events of its watch
-- as edits.
use libvineyard.Base.{
  ℕ, ◌%◌, ◌^◌, ◌≡◌, refl, not, ◌&&◌, List, [], ◌∷◌, ◌++◌, if◌then◌else◌, map, Text, length, drop,
  is_empty, arith,
}
use libvineyard.Meta.Paths.{starts_with}
use libvineyard.Meta.Service.{Op, put, del, put_op, del_op}

-- The operations of a transaction.
pub data TxOp : Type 0 where
  setup_put : Text → Text → TxOp
  setup_delete : Text → TxOp

-- `commitUpdates`
unfoldable pub commit_updates : Text → List Op → List TxOp
commit_updates prefix [] = []
commit_updates prefix (op ∷ ops) =
    let rest = commit_updates prefix ops in
    elim op.op [
      | put ↦ setup_put (prefix ++ op.key) op.val ∷ rest
      | del ↦ setup_delete (prefix ++ op.key) ∷ rest
    ]

pub data EventType : Type 0 where
  put_event delete_event invalid_event : EventType

-- An event of the watch.
pub record WatchEvent : Type 0 where
  pub type : EventType
  pub key : Text
  pub val : Text
  pub mod_revision : ℕ

-- The `unsigned` in which an edit keeps a revision, an `int64_t` in etcd.
abbrev pub as_unsigned : ℕ → ℕ
as_unsigned n = n % 2 ^ 32

-- The edit that an event stands for.
unfoldable pub op_of_event : Text → WatchEvent → List Op
op_of_event prefix event =
    let op_key = drop (length prefix) event.key in
    elim event.type [
      | put_event ↦ put_op op_key event.val (as_unsigned event.mod_revision) ∷ []
      | delete_event ↦ del_op op_key (as_unsigned event.mod_revision) ∷ []
      | invalid_event ↦ []
    ]

-- `EtcdWatchHandler::operator()`: the events under the filter are left out.
unfoldable pub watch_ops : Text → Text → List WatchEvent → List Op
watch_ops prefix filter_prefix [] = []
watch_ops prefix filter_prefix (event ∷ events) =
    let rest = watch_ops prefix filter_prefix events in
    if not (is_empty filter_prefix) && starts_with filter_prefix event.key
    then rest
    else op_of_event prefix event ++ rest

-- The event by which etcd reports an operation of the transaction with the revision.
abbrev pub event_at : ℕ → TxOp → WatchEvent
event_at rev (setup_put key val) = record {
  type = put_event;
  key = key;
  val = val;
  mod_revision = rev;
}
event_at rev (setup_delete key) = record {
  type = delete_event;
  key = key;
  val = [];
  mod_revision = rev;
}

-- The edits at the revision of their transaction; a deletion has no value.
abbrev pub at_revision : ℕ → Op → Op
at_revision rev op = record op { rev = rev; val = elim op.op [ put ↦ op.val | del ↦ [] ] }

-- The edits whose keys are not those of the lock.
unfoldable pub unlocked : Text → Text → List Op → List Op
unlocked prefix filter_prefix [] = []
unlocked prefix filter_prefix (op ∷ ops) =
    let rest = unlocked prefix filter_prefix ops in
    if not (is_empty filter_prefix) && starts_with filter_prefix (prefix ++ op.key)
    then rest
    else op ∷ rest

drop-prefix : (p s : Text) → drop (length p) (p ++ s) ≡ s
drop-prefix [] s = refl
drop-prefix (c ∷ p) s = drop-prefix p s

watch_ops-events :
    (prefix filter_prefix : Text) (rev : ℕ) (ops : List Op)
    → watch_ops prefix filter_prefix (map (event_at rev) (commit_updates prefix ops))
      ≡ map (at_revision (as_unsigned rev)) (unlocked prefix filter_prefix ops)
unfolding watch_ops commit_updates unlocked op_of_event
watch_ops-events prefix filter_prefix rev [] = refl
watch_ops-events prefix filter_prefix rev (op ∷ ops) =
    ground (arith, watch_ops-events prefix filter_prefix rev ops, drop-prefix prefix op.key)

-- What a server commits is what the watch of another one hands to it: where etcd reports each
-- operation of the transaction by an event at its revision, the edits come out in order, at that
-- revision modulo 2 ^ 32, but for those of the lock's keys.
pub watch_ops-commit_updates :
    (prefix filter_prefix : Text) (rev : ℕ) (ops : List Op) (events : List WatchEvent)
    → events ≡ map (event_at rev) (commit_updates prefix ops)
    → watch_ops prefix filter_prefix events
      ≡ map (at_revision (as_unsigned rev)) (unlocked prefix filter_prefix ops)
watch_ops-commit_updates prefix filter_prefix rev ops events e =
    rw e (watch_ops-events prefix filter_prefix rev ops)
