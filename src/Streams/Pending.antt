-- ===== src/Streams/Pending.antt =====
-- What each part of a call gives to the producer and to the consumer, and leaves between them.
use libvineyard.Base.{
  ℕ, ◌≡◌, refl, ap, true, none, some, List, [], ◌∷◌, ◌++◌, arith, Option-cases, inl, inr, is_set,
  if◌then◌else◌, to_list, append-nil, append_assoc,
}
use libvineyard.Common.Status.{ok, not_enough_memory, is_ok}
use libvineyard.Memory.Malloc.{Malloc}
use libvineyard.Memory.BulkStore.{BulkStore, process_create_request, process_delete_request}
use libvineyard.Memory.BulkStore.Requests.{create_result}
use libvineyard.Streams.{
  StreamHolder, Outcome, Reply, Answer, answered, replied, reply, error_reply, seal, wake_reader,
  write_next,
}
use libvineyard.Streams.Calls.{get_sealed, drop_reading, wake_writer, read_next, stop_reader}
use libvineyard.Streams.Invariant.{IsWellFormed, Call, gets, pulls, stops, drops}

-- The chunks that replies hand over: those with the status ok.
abbrev pub given : List Reply → List ℕ
given [] = []
given (r ∷ rs) = if is_ok r.status then r.chunk ∷ given rs else given rs

abbrev pub given_by_answer : Answer → List ℕ
given_by_answer (answered status) = []
given_by_answer (replied r) = if is_ok r.status then r.chunk ∷ [] else []

-- `Get` answers the producer and wakes the consumer; `Pull` the other way round.
abbrev pub to_producer : {m : Malloc} → Call → Outcome m → List ℕ
to_producer (gets size callback) o = given_by_answer o.answer
to_producer (pulls callback) o = given o.woken
to_producer (stops fails) o = []
to_producer drops o = []

abbrev pub to_consumer : {m : Malloc} → Call → Outcome m → List ℕ
to_consumer (gets size callback) o = given o.woken
to_consumer (pulls callback) o = given_by_answer o.answer
to_consumer (stops fails) o = given o.woken
to_consumer drops o = given o.woken

-- What has been given to the producer and not yet to the consumer.
abbrev pub pending : StreamHolder → List ℕ
pending h = h.ready_chunks ++ to_list h.current_writing

abbrev pub IsNotDrop : Call → Type 0
IsNotDrop drops = ⊥
IsNotDrop _ = Unit

pub seal-pending :
    (h : StreamHolder)
    → (pending (seal h) ≡ pending h)
      × ((seal h).ready_chunks ≡ pending h)
      × ((seal h).current_writing ≡ none)
      × ((seal h).reader ≡ h.reader)
      × ((seal h).current_reading ≡ h.current_reading)
unfolding seal
seal-pending h =
    ground
      (arith, append-nil h.ready_chunks, append-nil (h.ready_chunks ++ to_list h.current_writing))

wake_reader-pending :
    (r : ℕ) (h : StreamHolder)
    → let (h', woken) = wake_reader r h in
      (h.ready_chunks ≡ given woken ++ h'.ready_chunks) × (h'.current_writing ≡ h.current_writing)
unfolding wake_reader
wake_reader-pending r h = ground arith

module _ {m : Malloc} where
  write_next-pending :
      (threshold size callback : ℕ) (s : BulkStore m) (h : StreamHolder) (woken : List Reply)
      → h.current_writing ≡ none
      → let o = write_next threshold size callback s h woken in
        (pending o.holder ≡ h.ready_chunks ++ given_by_answer o.answer) × (o.woken ≡ woken)
  unfolding write_next
  write_next-pending threshold size callback s h woken e =
      ground (arith, create_result size s, append-nil h.ready_chunks)

  read_next-pending :
      (callback : ℕ) (s : BulkStore m) (h : StreamHolder) (woken : List Reply)
      → let o = read_next callback s h woken in
        (pending h ≡ given_by_answer o.answer ++ pending o.holder) × (o.woken ≡ woken)
  unfolding read_next
  read_next-pending callback s h woken = ground arith

  pub get_sealed-pending :
      (threshold size callback : ℕ) (s : BulkStore m) (h : StreamHolder)
      → h.current_writing ≡ none
      → (is_set h.reader ≡ true → h.current_reading ≡ none)
      → let o = get_sealed threshold size callback s h in
        h.ready_chunks ++ given_by_answer o.answer ≡ given o.woken ++ pending o.holder
  unfolding get_sealed
  get_sealed-pending threshold size callback s h e free = elim (Option-cases h.reader) [
    | inl nobody ↦
        let (p, q) = write_next-pending threshold size callback s h [] e in
        rw (nobody, get_sealed) (rw (p, q))
    | inr (r, somebody) ↦
        let (h', woken) = wake_reader r h in
        let o = write_next threshold size callback s h' woken in
        rw (somebody, get_sealed)
          (rw (ap is_set (free (rw somebody))) (
            ground (
              arith,
              wake_reader-pending r h,
              write_next-pending threshold size callback s h' woken,
              append_assoc (given woken) h'.ready_chunks (given_by_answer o.answer),
            )))
  ]

  -- A chunk that the pending producer gets is the last one pending.
  wake_writer_chunk :
      (callback p chunk : ℕ) (s : BulkStore m) (h : StreamHolder)
      → h.current_writing ≡ none
      → let o =
          read_next callback s
            (record h { current_writing = some chunk; writer = none })
            (reply p ok chunk ∷ []) in
        pending h ++ given o.woken ≡ given_by_answer o.answer ++ pending o.holder
  wake_writer_chunk callback p chunk s h e = ground (
    arith,
    read_next-pending callback s (record h { current_writing = some chunk; writer = none })
        (reply p ok chunk ∷ []),
    append-nil h.ready_chunks,
  )

  wake_writer_nothing :
      (callback : ℕ) (s : BulkStore m) (h : StreamHolder) (woken : List Reply)
      → given woken ≡ []
      → let o = read_next callback s h woken in
        pending h ++ given o.woken ≡ given_by_answer o.answer ++ pending o.holder
  wake_writer_nothing callback s h woken e =
      ground (arith, read_next-pending callback s h woken, append-nil (pending h))

  wake_writer-some :
      (threshold callback size p : ℕ) (s : BulkStore m) (h : StreamHolder)
      → h.writer ≡ some (size, p)
      → h.current_writing ≡ none
      → let o = wake_writer threshold callback s h in
        pending h ++ given o.woken ≡ given_by_answer o.answer ++ pending o.holder
  unfolding wake_writer
  wake_writer-some threshold callback size p s h e free =
      let s' = (process_create_request size s).1 in
      let full = wake_writer_nothing callback s h [] refl in
      elim (create_result size s) [
        | inl none_left ↦
            ground (
              arith,
              full,
              wake_writer_nothing callback s' h (error_reply p not_enough_memory ∷ []),
            )
        | inr (chunk, q, made) ↦ ground (arith, full, wake_writer_chunk callback p chunk s' h free)
      ]

  wake_writer-pending :
      (threshold callback : ℕ) (s : BulkStore m) (h : StreamHolder)
      → IsWellFormed h
      → let o = wake_writer threshold callback s h in
        pending h ++ given o.woken ≡ given_by_answer o.answer ++ pending o.holder
  unfolding wake_writer
  wake_writer-pending threshold callback s h w = elim (Option-cases h.writer) [
    | inl nobody ↦ rw (nobody, wake_writer) (wake_writer_nothing callback s h [] refl)
    | inr ((size, p), somebody) ↦
        wake_writer-some threshold callback size p s h somebody (w.not_writing (rw somebody))
  ]

  pub drop_reading-pending :
      (threshold callback : ℕ) (s : BulkStore m) (h : StreamHolder)
      → IsWellFormed h
      → h.reader ≡ none
      → let o = drop_reading threshold callback s h in
        pending h ++ given o.woken ≡ given_by_answer o.answer ++ pending o.holder
  unfolding drop_reading
  drop_reading-pending threshold callback s h w e = elim (Option-cases h.current_reading) [
    | inl nothing ↦ rw (nothing, drop_reading) (wake_writer-pending threshold callback s h w)
    | inr (c, reading) ↦
        let s' = (process_delete_request c s).1 in
        let h' = record h { current_reading = none } in
        ground (
          arith,
          append-nil (pending h),
          wake_writer-pending threshold callback s' h' (ground arith),
        )
  ]

  pub stop_reader-pending :
      (s : BulkStore m) (h : StreamHolder)
      → let o = stop_reader s h in pending h ≡ given o.woken ++ pending o.holder
  unfolding stop_reader
  stop_reader-pending s h = ground arith
