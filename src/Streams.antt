-- ===== src/Streams.antt =====
-- src/server/memory/stream_store.h and stream_store.cc: streams of blobs between one producer and
-- one consumer. A callback is a number that stands for it, and what it is told is a reply.
pub mod Calls
pub mod Invariant
pub mod Pending
pub mod Fifo
pub mod Waiting
pub mod Failures
pub mod Tests
use libvineyard.Base.{
  ℕ, ◌*◌, ◌%◌, Bool, true, false, ◌||◌, Option, none, some, List, [], ◌∷◌, ◌++◌, ltb, if◌then◌else◌,
  is_set, word, add64,
}
use libvineyard.Base.Table.{Table, lookup, contains, update}
use libvineyard.Common.Status.{
  Status, ok, object_exists, object_not_exists, invalid_stream_state, stream_drained, stream_failed,
  is_ok,
}
use libvineyard.Common.Uuid.{invalid_object_id}
use libvineyard.Memory.Malloc.{Malloc}
use libvineyard.Memory.BulkStore.{
  BulkStore, Created, created, failed, process_create_request, process_delete_request, footprint,
  footprint_limit,
}

-- `struct StreamHolder`; the front of the queue comes first.
pub record StreamHolder : Type 0 where
  pub current_writing : Option ℕ
  pub current_reading : Option ℕ
  pub ready_chunks : List ℕ
  pub reader : Option ℕ
  pub writer : Option (ℕ × ℕ)
  pub drained : Bool
  pub failed : Bool

pub record StreamStore (m : Malloc) : Type 0 where
  pub store : BulkStore m
  pub threshold : ℕ
  pub streams : Table StreamHolder

-- A call of a callback.
pub record Reply : Type 0 where
  pub callback : ℕ
  pub status : Status
  pub chunk : ℕ

-- What a function returns: a status of its own, or what the callback that it calls returns.
pub data Answer : Type 0 where
  answered : Status → Answer
  replied : Reply → Answer

-- What a call on one stream does. `woken` are the pending callbacks that it calls, whose own
-- answers are suppressed.
pub record Outcome (m : Malloc) : Type 0 where
  pub store : BulkStore m
  pub holder : StreamHolder
  pub woken : List Reply
  pub answer : Answer

abbrev pub new_stream : StreamHolder
new_stream = record {
  current_writing = none;
  current_reading = none;
  ready_chunks = [];
  reader = none;
  writer = none;
  drained = false;
  failed = false;
}

abbrev pub reply : ℕ → Status → ℕ → Reply
reply callback status chunk = record { callback = callback; status = status; chunk = chunk }

abbrev pub error_reply : ℕ → Status → Reply
error_reply callback status = reply callback status invalid_object_id

-- The producer's chunk becomes readable.
unfoldable pub seal : StreamHolder → StreamHolder
seal h = elim h.current_writing [
  | none ↦ h
  | some c ↦ record h { ready_chunks = h.ready_chunks ++ c ∷ []; current_writing = none }
]

-- The first ready chunk, if there is one, goes to the pending reader.
unfoldable pub wake_reader : ℕ → StreamHolder → StreamHolder × List Reply
wake_reader r h = elim h.ready_chunks [
  | [] ↦ (h, [])
  | c ∷ rest ↦
      (record h { current_reading = some c; ready_chunks = rest; reader = none }, reply r ok c ∷ [])
]

module _ {m : Malloc} where
  -- The comparison with a hundredth of a product, in whole numbers: that of the code's doubles while both
  -- sides, times 100, are below 2 ^ 53.
  unfoldable pub allocatable : ℕ → BulkStore m → ℕ → Bool
  allocatable threshold s size =
      ltb (100 * add64 (footprint s) size) ((footprint_limit s * threshold) % word)

  abbrev pub outcome : BulkStore m → StreamHolder → List Reply → Answer → Outcome m
  outcome s h woken answer = record { store = s; holder = h; woken = woken; answer = answer }

  -- `Get` and `Pull` answer a wrong state through the callback, and stop.
  abbrev pub refuse : ℕ → BulkStore m → StreamHolder → Outcome m
  refuse callback s h = outcome s h [] (replied (error_reply callback invalid_stream_state))

  -- The end of `Get`: a new chunk for the producer, or it has to wait.
  unfoldable pub write_next : ℕ → ℕ → ℕ → BulkStore m → StreamHolder → List Reply → Outcome m
  write_next threshold size callback s h woken =
      let (result, s') = process_create_request size s in
      if allocatable threshold s size
      then elim result [
        | failed status ↦ outcome s' h woken (replied (error_reply callback status))
        | created chunk _ ↦
            outcome s' (record h { current_writing = some chunk }) woken
              (replied (reply callback ok chunk))
      ]
      else outcome s (record h { writer = some (size, callback) }) woken (answered ok)
