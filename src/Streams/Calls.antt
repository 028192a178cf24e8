-- ===== src/Streams/Calls.antt =====
-- The calls of src/server/memory/stream_store.cc, on one stream and on the table of streams.
use libvineyard.Base.{ℕ, Bool, true, false, ◌||◌, none, some, List, [], ◌∷◌, if◌then◌else◌, is_set}
use libvineyard.Base.Table.{lookup, contains, update}
use libvineyard.Common.Status.{
  Status, ok, object_exists, object_not_exists, invalid_stream_state, assertion_failed,
  stream_drained, stream_failed, is_ok,
}
use libvineyard.Memory.Malloc.{Malloc}
use libvineyard.Memory.BulkStore.{
  BulkStore, created, failed, process_create_request, process_delete_request,
}
use libvineyard.Streams.{
  StreamHolder, StreamStore, Reply, Answer, answered, replied, Outcome, new_stream, reply,
  error_reply, seal, wake_reader, allocatable, outcome, refuse, write_next,
}

-- What a call on the table of streams does.
pub record Called (m : Malloc) : Type 0 where
  pub state : StreamStore m
  pub woken : List Reply
  pub answer : Answer

abbrev stopped : Bool → StreamHolder → StreamHolder
stopped true h = record h { failed = true }
stopped false h = record h { drained = true }

module _ {m : Malloc} where
  -- `Get` once the chunk is sealed.
  unfoldable pub get_sealed : ℕ → ℕ → ℕ → BulkStore m → StreamHolder → Outcome m
  get_sealed threshold size callback s h = elim h.reader [
    | none ↦ write_next threshold size callback s h []
    | some r ↦
        if is_set h.current_reading
        then refuse callback s h
        else (let (h', woken) = wake_reader r h in write_next threshold size callback s h' woken)
  ]

  -- `Get`, by the producer: the chunk that it has written becomes readable, and it wants another.
  unfoldable pub get_on : ℕ → ℕ → ℕ → BulkStore m → StreamHolder → Outcome m
  get_on threshold size callback s h =
      if is_set h.writer
      then refuse callback s h
      else if h.drained || h.failed
      then refuse callback s h
      else get_sealed threshold size callback s (seal h)

  -- The end of `Pull`: the next chunk, or why there is none, or the consumer has to wait.
  unfoldable pub read_next : ℕ → BulkStore m → StreamHolder → List Reply → Outcome m
  read_next callback s h woken = elim h.ready_chunks [
    | c ∷ rest ↦
        outcome s (record h { current_reading = some c; ready_chunks = rest }) woken
          (replied (reply callback ok c))
    | [] ↦
        if h.drained
        then outcome s h woken (replied (error_reply callback stream_drained))
        else if h.failed
        then outcome s h woken (replied (error_reply callback stream_failed))
        else outcome s (record h { reader = some callback }) woken (answered ok)
  ]

  -- The middle of `Pull`: a pending producer gets a chunk if there is room. If there is none after
  -- all, it is told, and stays pending.
  unfoldable pub wake_writer : ℕ → ℕ → BulkStore m → StreamHolder → Outcome m
  wake_writer threshold callback s h = elim h.writer [
    | none ↦ read_next callback s h []
    | some (size, w) ↦
        if is_set h.current_writing
        then refuse callback s h
        else (let (result, s') = process_create_request size s in
            if allocatable threshold s size
            then elim result [
              | failed status ↦ read_next callback s' h (error_reply w status ∷ [])
              | created chunk _ ↦
                  read_next callback s' (record h { current_writing = some chunk; writer = none })
                    (reply w ok chunk ∷ [])
            ]
            else read_next callback s h [])
  ]

  -- `Pull` once the reader is known to be free: the chunk that was read is deleted.
  unfoldable pub drop_reading : ℕ → ℕ → BulkStore m → StreamHolder → Outcome m
  drop_reading threshold callback s h = elim h.current_reading [
    | none ↦ wake_writer threshold callback s h
    | some c ↦
        let (status, s') = process_delete_request c s in
        if is_ok status
        then wake_writer threshold callback s' (record h { current_reading = none })
        else outcome s' h [] (replied (error_reply callback status))
  ]

  -- `Pull`, by the consumer: it has read its chunk, and wants the next.
  unfoldable pub pull_on : ℕ → ℕ → BulkStore m → StreamHolder → Outcome m
  pull_on threshold callback s h =
      if is_set h.reader then refuse callback s h else drop_reading threshold callback s h

  -- The end of `Stop`: a pending reader is told.
  unfoldable pub stop_reader : BulkStore m → StreamHolder → Outcome m
  stop_reader s h = elim h.reader [
    | none ↦ outcome s h [] (answered ok)
    | some r ↦
        if is_set h.current_reading
        then outcome s (record h { reader = none }) (error_reply r invalid_stream_state ∷ [])
            (answered invalid_stream_state)
        else if h.failed
        then outcome s (record h { reader = none }) (error_reply r stream_failed ∷ []) (answered ok)
        else elim h.ready_chunks [
          | c ∷ rest ↦
              outcome s (record h { current_reading = some c; ready_chunks = rest; reader = none })
                (reply r ok c ∷ []) (answered ok)
          | [] ↦
              if h.drained
              then outcome s (record h { reader = none }) (error_reply r stream_failed ∷ [])
                  (answered ok)
              else outcome s h [] (answered assertion_failed)
        ]
  ]

  -- `Stop`, by the producer.
  unfoldable pub stop_on : Bool → BulkStore m → StreamHolder → Outcome m
  stop_on fails s h =
      if h.drained || h.failed
      then outcome s h [] (answered invalid_stream_state)
      else if is_set h.writer
      then outcome s h [] (answered invalid_stream_state)
      else stop_reader s (stopped fails (seal h))

  -- The loop of `Drop`, over the chunks that are left.
  unfoldable pub drop_ready : List ℕ → BulkStore m → StreamHolder → List Reply → Outcome m
  drop_ready [] s h woken = outcome s (record h { ready_chunks = [] }) woken (answered ok)
  drop_ready (c ∷ cs) s h woken =
      let (status, s') = process_delete_request c s in
      let rest = drop_ready cs s' h woken in
      let stuck = outcome s' (record h { ready_chunks = c ∷ cs }) woken (answered status) in
      if is_ok status then rest else stuck

  -- `Drop`, once the consumer's connection is lost.
  unfoldable pub drop_on : BulkStore m → StreamHolder → Outcome m
  drop_on s h = elim h.reader [
    | none ↦ drop_ready h.ready_chunks s (record h { failed = true }) []
    | some r ↦
        if is_set h.current_reading
        then outcome s (record h { failed = true }) [] (answered invalid_stream_state)
        else drop_ready h.ready_chunks s (record h { failed = true; reader = none })
            (error_reply r stream_failed ∷ [])
  ]

  abbrev unknown : ℕ → StreamStore m → Called m
  unknown callback s = record {
    state = s;
    woken = [];
    answer = replied (error_reply callback object_not_exists);
  }

  -- The stream is changed in place.
  abbrev pub put_back : ℕ → StreamStore m → Outcome m → Called m
  put_back stream_id s o = record {
    state = record s { store = o.store; streams = update stream_id o.holder s.streams };
    woken = o.woken;
    answer = o.answer;
  }

  -- `Create`
  unfoldable pub create_stream : ℕ → StreamStore m → Status × StreamStore m
  create_stream stream_id s =
      if contains stream_id s.streams
      then (object_exists, s)
      else (ok, record s { streams = (stream_id, new_stream) ∷ s.streams })

  unfoldable pub get : ℕ → ℕ → ℕ → StreamStore m → Called m
  get stream_id size callback s = elim (lookup stream_id s.streams) [
    | none ↦ unknown callback s
    | some h ↦ put_back stream_id s (get_on s.threshold size callback s.store h)
  ]

  unfoldable pub pull : ℕ → ℕ → StreamStore m → Called m
  pull stream_id callback s = elim (lookup stream_id s.streams) [
    | none ↦ unknown callback s
    | some h ↦ put_back stream_id s (pull_on s.threshold callback s.store h)
  ]

  unfoldable pub stop : ℕ → Bool → StreamStore m → Called m
  stop stream_id fails s = elim (lookup stream_id s.streams) [
    | none ↦ record { state = s; woken = []; answer = answered object_not_exists }
    | some h ↦ put_back stream_id s (stop_on fails s.store h)
  ]

  unfoldable pub drop : ℕ → StreamStore m → Called m
  drop stream_id s = elim (lookup stream_id s.streams) [
    | none ↦ record { state = s; woken = []; answer = answered object_not_exists }
    | some h ↦ put_back stream_id s (drop_on s.store h)
  ]
