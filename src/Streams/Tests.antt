-- ===== src/Streams/Tests.antt =====
-- Streams on concrete inputs.
use libvineyard.Base.{◌+◌, ◌≡◌, refl, false, some, List, [], ◌∷◌, ◌++◌, arith, half_word}
use libvineyard.Base.Table.{lookup, erase}
use libvineyard.Common.Status.{ok, stream_drained, stream_failed}
use libvineyard.Common.Uuid.{generate_blob_id}
use libvineyard.Memory.Malloc.{get_malloc_mapinfo}
use libvineyard.Memory.Malloc.Tests.{sum_malloc}
use libvineyard.Memory.Allocator.{memalign, free}
use libvineyard.Memory.BulkStore.{
  process_create_request, process_delete_request, footprint, footprint_limit,
}
use libvineyard.Memory.BulkStore.Tests.{small_store}
use libvineyard.Streams.{
  StreamHolder, StreamStore, answered, replied, new_stream, error_reply, seal, wake_reader,
  write_next, allocatable,
}
use libvineyard.Streams.Calls.{
  get_on, get_sealed, pull_on, drop_reading, wake_writer, read_next, stop_on, stop_reader,
}
use libvineyard.Streams.Invariant.{
  IsWellFormed, Call, gets, pulls, stops, serve, serve-IsWellFormed,
}
use libvineyard.Streams.Fifo.{replay, replay_fifo, started}
use libvineyard.Streams.Pending.{pending}
use libvineyard.Streams.Failures.{stop_drains_as_failed}

-- The consumer 5 waits, and the producer writes the chunk 9.
abbrev waiting : StreamHolder
waiting = record new_stream { current_writing = some 9; reader = some 5 }

-- The consumer 5 waits, and nothing has been written.
abbrev idle : StreamHolder
idle = record new_stream { reader = some 5 }

-- Two chunks are ready, the first is the blob of the store; the consumer reads none.
abbrev filled : StreamHolder
filled = record new_stream { ready_chunks = (half_word + 1) ∷ [] }

-- The producer 6 waits for 2000 bytes.
abbrev stalled : StreamHolder
stalled = record new_stream { writer = some (2000, 6) }

abbrev streams : StreamStore sum_malloc
streams = record { store = small_store; threshold = 80; streams = (1, waiting) ∷ (2, filled) ∷ [] }

waiting-IsWellFormed : IsWellFormed waiting
waiting-IsWellFormed = ground arith

serve-IsWellFormed_example : IsWellFormed (serve 80 (gets 64 7) small_store waiting).holder
serve-IsWellFormed_example =
    serve-IsWellFormed 80 (gets 64 7) small_store waiting waiting-IsWellFormed

abbrev calls : List Call
calls = pulls 1 ∷ gets 10 2 ∷ gets 20 3 ∷ pulls 4 ∷ stops false ∷ pulls 5 ∷ []

replay-calls :
    ((replay 80 calls (started small_store)).produced ≡ (half_word + 2) ∷ (half_word + 4) ∷ [])
    × ((replay 80 calls (started small_store)).consumed ≡ (half_word + 2) ∷ (half_word + 4) ∷ [])
unfolding replay serve get_on get_sealed seal wake_reader write_next pull_on drop_reading
    wake_writer read_next stop_on stop_reader allocatable footprint footprint_limit
    process_create_request process_delete_request memalign free get_malloc_mapinfo generate_blob_id
    lookup erase
replay-calls = (refl, refl)

replay_fifo_example :
    let t = replay 80 calls (started small_store) in t.produced ≡ t.consumed ++ pending t.holder
replay_fifo_example = replay_fifo 80 calls small_store (omega arith)

stop_drains_as_failed_example :
    let o = stop_on false small_store idle in
    (o.woken ≡ error_reply 5 stream_failed ∷ [])
    × (o.answer ≡ answered ok)
    × ((pull_on 80 7 o.store o.holder).answer ≡ replied (error_reply 7 stream_drained))
stop_drains_as_failed_example =
    stop_drains_as_failed 80 7 5 small_store idle (ground arith) refl refl refl
