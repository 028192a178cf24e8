-- ===== src/Streams/Waiting.antt =====
-- Nobody waits in vain: what is ready is handed over by the next call.
use libvineyard.Base.{
  ℕ, ◌≡◌, refl, Bool, false, none, some, List, [], ◌∷◌, arith, Option-cases, inl, inr, ◌≢◌,
}
use libvineyard.Base.Table.{lookup, lookup-update}
use libvineyard.Common.Status.{ok}
use libvineyard.Memory.Malloc.{Malloc}
use libvineyard.Memory.BulkStore.{BulkStore, process_delete_request}
use libvineyard.Streams.{
  StreamHolder, StreamStore, Outcome, Reply, answered, replied, reply, seal, wake_reader,
  write_next,
}
use libvineyard.Streams.Calls.{
  get_on, get_sealed, pull_on, drop_reading, wake_writer, read_next, stop_on, stop_reader, drop_on,
  Called, get, pull, stop, drop, put_back,
}
use libvineyard.Streams.Invariant.{IsWellFormed}

module _ {m : Malloc} where
  write_next-woken :
      (threshold size callback : ℕ) (s : BulkStore m) (h : StreamHolder) (woken : List Reply)
      → let o = write_next threshold size callback s h woken in
        (o.woken ≡ woken)
        × (o.holder.reader ≡ h.reader)
        × (o.holder.current_reading ≡ h.current_reading)
  unfolding write_next
  write_next-woken threshold size callback s h woken = ground arith

  -- A consumer that waits gets the chunk that the producer's Get seals.
  pub get_wakes_reader :
      (threshold size callback r c : ℕ) (s : BulkStore m) (h : StreamHolder)
      → IsWellFormed h
      → h.reader ≡ some r
      → h.current_writing ≡ some c
      → let o = get_on threshold size callback s h in
        (o.woken ≡ reply r ok c ∷ [])
        × (o.holder.reader ≡ none)
        × (o.holder.current_reading ≡ some c)
  unfolding get_on get_sealed seal wake_reader
  get_wakes_reader threshold size callback r c s h w waits writes =
      let h' : StreamHolder = record h {
        current_writing = none;
        current_reading = some c;
        ready_chunks = [];
        reader = none;
      } in
      ground (arith, write_next-woken threshold size callback s h' (reply r ok c ∷ []))

  -- A consumer that waits gets the chunk that the producer seals by a Stop that drains the stream.
  pub stop_wakes_reader :
      (r c : ℕ) (s : BulkStore m) (h : StreamHolder)
      → IsWellFormed h
      → h.reader ≡ some r
      → h.current_writing ≡ some c
      → let o = stop_on false s h in
        (o.woken ≡ reply r ok c ∷ [])
        × (o.answer ≡ answered ok)
        × (o.holder.current_reading ≡ some c)
  unfolding stop_on stop_reader seal
  stop_wakes_reader r c s h w waits writes = ground arith

  wake_writer-ready :
      (threshold callback c : ℕ) (rest : List ℕ) (s : BulkStore m) (h : StreamHolder)
      → IsWellFormed h
      → h.ready_chunks ≡ c ∷ rest
      → let o = wake_writer threshold callback s h in
        (o.answer ≡ replied (reply callback ok c))
        × (o.holder.current_reading ≡ some c)
        × (o.holder.ready_chunks ≡ rest)
  unfolding wake_writer read_next
  wake_writer-ready threshold callback c rest s h w e = ground (arith)

  -- Where the chunk that was read, if any, can be deleted, Pull answers with the first ready chunk.
  pub pull_gives_first :
      (threshold callback c : ℕ) (rest : List ℕ) (s : BulkStore m) (h : StreamHolder)
      → IsWellFormed h
      → h.ready_chunks ≡ c ∷ rest
      → ((d : ℕ) → h.current_reading ≡ some d → (process_delete_request d s).0 ≡ ok)
      → let o = pull_on threshold callback s h in
        (o.answer ≡ replied (reply callback ok c))
        × (o.holder.current_reading ≡ some c)
        × (o.holder.ready_chunks ≡ rest)
  unfolding pull_on drop_reading
  pull_gives_first threshold callback c rest s h w e deletable =
      elim (Option-cases h.current_reading) [
        | inl nothing ↦ ground (arith, wake_writer-ready threshold callback c rest s h w e)
        | inr (d, reads) ↦
            let h' = record h { current_reading = none } in
            ground (
              arith,
              deletable d reads,
              wake_writer-ready threshold callback c rest (process_delete_request d s).1 h'
                  (ground arith) e,
            )
      ]

module _ {m : Malloc} where
  -- A call for one stream leaves every other stream alone; for a stream that is not there it changes
  -- nothing and answers that the object does not exist.
  abbrev pub IsLocal : ℕ → StreamStore m → Called m → Type 0
  IsLocal id s r =
      ((j : ℕ) → j ≢ id → lookup j r.state.streams ≡ lookup j s.streams)
      × (lookup id s.streams ≡ none → r.state ≡ s)

  others_kept :
      (id : ℕ) (s : StreamStore m) (o : Outcome m) (j : ℕ)
      → j ≢ id
      → lookup j (put_back id s o).state.streams ≡ lookup j s.streams
  others_kept id s o j ne = ground (arith, lookup-update j id o.holder s.streams)

  -- Every call is local to its stream: no other stream changes, and if the stream is not there
  -- nothing changes.
  pub calls-IsLocal :
      (id size callback : ℕ) (fails : Bool) (s : StreamStore m)
      → IsLocal id s (get id size callback s)
        × IsLocal id s (pull id callback s)
        × IsLocal id s (stop id fails s)
        × IsLocal id s (drop id s)
  unfolding get pull stop drop
  calls-IsLocal id size callback fails s = elim (Option-cases (lookup id s.streams)) [
    | inl gone ↦
        rw (gone, get, pull, stop, drop)
          (
            ((λ j ne. refl), (λ _. refl)),
            ((λ j ne. refl), (λ _. refl)),
            ((λ j ne. refl), (λ _. refl)),
            ((λ j ne. refl), (λ _. refl)),
          )
    | inr (h, found) ↦
        rw (found, get, pull, stop, drop)
          (
            (others_kept id s (get_on s.threshold size callback s.store h), (λ e. cc)),
            (others_kept id s (pull_on s.threshold callback s.store h), (λ e. cc)),
            (others_kept id s (stop_on fails s.store h), (λ e. cc)),
            (others_kept id s (drop_on s.store h), (λ e. cc)),
          )
  ]
