-- ===== src/Streams/Failures.antt =====
-- How a stream ends, and what its end and a lack of memory do to those that wait.
use libvineyard.Base.{
  ℕ, ◌≡◌, refl, ap, true, false, none, some, List, [], ◌∷◌, arith, Option-cases, inl, inr,
}
use libvineyard.Common.Status.{ok, stream_drained, stream_failed, not_enough_memory, is_ok}
use libvineyard.Memory.Malloc.{Malloc}
use libvineyard.Memory.BulkStore.{BulkStore, failed, process_create_request, process_delete_request}
use libvineyard.Streams.{
  StreamHolder, Reply, answered, replied, error_reply, seal, allocatable, outcome,
}
use libvineyard.Streams.Calls.{
  pull_on, drop_reading, wake_writer, read_next, stop_on, stop_reader, drop_on, drop_ready,
}
use libvineyard.Streams.Invariant.{IsWellFormed}

module _ {m : Malloc} where
  read_next-writer :
      (callback : ℕ) (s : BulkStore m) (h : StreamHolder) (woken : List Reply)
      → let o = read_next callback s h woken in (o.woken ≡ woken) × (o.holder.writer ≡ h.writer)
  unfolding read_next
  read_next-writer callback s h woken = ground arith

  -- A pending producer for whose size there is room by the count, but no memory, is told so by the
  -- Pull, and yet stays pending: the next Pull calls its callback again.
  pub pull_tells_writer_twice :
      (threshold callback size p : ℕ) (s : BulkStore m) (h : StreamHolder)
      → IsWellFormed h
      → h.reader ≡ none
      → h.current_reading ≡ none
      → h.writer ≡ some (size, p)
      → allocatable threshold s size ≡ true
      → (process_create_request size s).0 ≡ failed not_enough_memory
      → let o = pull_on threshold callback s h in
        (o.woken ≡ error_reply p not_enough_memory ∷ []) × (o.holder.writer ≡ some (size, p))
  unfolding pull_on drop_reading wake_writer
  pull_tells_writer_twice threshold callback size p s h w idle unread waits room full = ground (
    arith,
    read_next-writer callback (process_create_request size s).1 h
        (error_reply p not_enough_memory ∷ []),
  )

  -- A consumer that waits while the producer drains the stream with no chunk left is told that the
  -- stream failed; the same consumer, had it come after the Stop, is told that it is drained.
  pub stop_drains_as_failed :
      (threshold callback r : ℕ) (s : BulkStore m) (h : StreamHolder)
      → IsWellFormed h
      → h.reader ≡ some r
      → h.writer ≡ none
      → h.current_writing ≡ none
      → let o = stop_on false s h in
        (o.woken ≡ error_reply r stream_failed ∷ [])
        × (o.answer ≡ answered ok)
        × ((pull_on threshold callback o.store o.holder).answer
            ≡ replied (error_reply callback stream_drained))
  unfolding stop_on stop_reader seal pull_on drop_reading wake_writer read_next
  stop_drains_as_failed threshold callback r s h w waits free empty = ground arith

  -- Every chunk is in the store, and none twice in the list.
  abbrev pub Deletable : List ℕ → BulkStore m → Type 0
  Deletable [] s = Unit
  Deletable (c ∷ cs) s =
      ((process_delete_request c s).0 ≡ ok) × Deletable cs (process_delete_request c s).1

  abbrev pub delete_all : List ℕ → BulkStore m → BulkStore m
  delete_all [] s = s
  delete_all (c ∷ cs) s = delete_all cs (process_delete_request c s).1

  drop_ready_all :
      (cs : List ℕ) (s : BulkStore m) (h : StreamHolder) (woken : List Reply)
      → Deletable cs s
      → drop_ready cs s h woken
        ≡ outcome (delete_all cs s) (record h { ready_chunks = [] }) woken (answered ok)
  unfolding drop_ready
  drop_ready_all [] s h woken d = refl
  drop_ready_all (c ∷ cs) s h woken d =
      rw (ap is_ok d.0) (drop_ready_all cs (process_delete_request c s).1 h woken d.1)

  -- Drop, where the ready chunks can be deleted one after the other: it succeeds, deletes just
  -- these, tells a consumer that waits that the stream failed, and keeps the chunks that are being
  -- read and written. A producer that waits is not told and stays pending.
  pub drop_on_lem :
      (s : BulkStore m) (h : StreamHolder)
      → IsWellFormed h
      → Deletable h.ready_chunks s
      → let o = drop_on s h in
        (o.answer ≡ answered ok)
        × (o.holder ≡ record h { ready_chunks = []; reader = none; failed = true })
        × (o.store ≡ delete_all h.ready_chunks s)
        × (o.woken ≡ elim h.reader [ none ↦ [] | some r ↦ error_reply r stream_failed ∷ [] ])
  unfolding drop_on
  drop_on_lem s h w d = elim (Option-cases h.reader) [
    | inl nobody ↦
        let e = drop_ready_all h.ready_chunks s (record h { failed = true }) [] d in
        ground (arith, e)
    | inr (r, waits) ↦
        let e =
          drop_ready_all h.ready_chunks s (record h { failed = true; reader = none })
            (error_reply r stream_failed ∷ []) d in
        ground (arith, e)
  ]
