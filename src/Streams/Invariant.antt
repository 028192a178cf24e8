-- ===== src/Streams/Invariant.antt =====
-- Who may wait on a stream.
use libvineyard.Base.{
  ℕ, ◌≡◌, refl, ap, Bool, true, false, none, List, [], ◌∷◌, arith, Option-cases, inl, inr, is_set,
}
use libvineyard.Memory.Malloc.{Malloc}
use libvineyard.Memory.BulkStore.{BulkStore, process_delete_request}
use libvineyard.Streams.{StreamHolder, Outcome, Reply, new_stream, seal, wake_reader, write_next}
use libvineyard.Streams.Calls.{
  get_on, get_sealed, pull_on, read_next, wake_writer, drop_reading, stop_on, stop_reader, drop_on,
  drop_ready,
}

pub record IsWellFormed (h : StreamHolder) : Type 0 where
  pub nothing_ready : is_set h.reader ≡ true → h.ready_chunks ≡ []
  pub not_reading : is_set h.reader ≡ true → h.current_reading ≡ none
  pub not_drained : is_set h.reader ≡ true → h.drained ≡ false
  pub not_failed : is_set h.reader ≡ true → h.failed ≡ false
  pub not_writing : is_set h.writer ≡ true → h.current_writing ≡ none
  pub still_open : is_set h.writer ≡ true → h.drained ≡ false

pub new_stream-IsWellFormed : IsWellFormed new_stream
new_stream-IsWellFormed = ground arith

module _ {m : Malloc} where
  get_on-IsWellFormed :
      (threshold size callback : ℕ) (s : BulkStore m) (h : StreamHolder)
      → IsWellFormed h
      → IsWellFormed (get_on threshold size callback s h).holder
  unfolding get_on get_sealed seal write_next wake_reader
  get_on-IsWellFormed threshold size callback s h w = ground arith

  pull_on-IsWellFormed :
      (threshold callback : ℕ) (s : BulkStore m) (h : StreamHolder)
      → IsWellFormed h
      → IsWellFormed (pull_on threshold callback s h).holder
  unfolding pull_on drop_reading wake_writer read_next
  pull_on-IsWellFormed threshold callback s h w = ground arith

  stop_on-IsWellFormed :
      (fails : Bool) (s : BulkStore m) (h : StreamHolder)
      → IsWellFormed h
      → IsWellFormed (stop_on fails s h).holder
  unfolding stop_on stop_reader seal
  stop_on-IsWellFormed fails s h w = ground arith

  -- Whatever the loop of `Drop` deletes, it changes nothing but the queue.
  drop_ready-IsWellFormed :
      (cs : List ℕ) (s : BulkStore m) (h : StreamHolder) (woken : List Reply)
      → IsWellFormed h
      → h.reader ≡ none
      → IsWellFormed (drop_ready cs s h woken).holder
  unfolding drop_ready
  drop_ready-IsWellFormed [] s h woken w e = ground arith
  drop_ready-IsWellFormed (c ∷ cs) s h woken w e =
      ground (arith, drop_ready-IsWellFormed cs (process_delete_request c s).1 h woken w e)

  drop_on-IsWellFormed :
      (s : BulkStore m) (h : StreamHolder) → IsWellFormed h → IsWellFormed (drop_on s h).holder
  unfolding drop_on
  drop_on-IsWellFormed s h w = elim (Option-cases h.reader) [
    | inl e ↦
        rw (e, drop_on)
          (drop_ready-IsWellFormed h.ready_chunks s _ [] (ground arith) (ground arith))
    | inr (r, e) ↦
        rw (e, drop_on)
          (rw (ap is_set (w.not_reading (rw e)))
            (drop_ready-IsWellFormed h.ready_chunks s _ _ (ground arith) refl))
  ]

-- A call on a stream.
pub data Call : Type 0 where
  gets : ℕ → ℕ → Call
  pulls : ℕ → Call
  stops : Bool → Call
  drops : Call

module _ {m : Malloc} (threshold : ℕ) where
  unfoldable pub serve : Call → BulkStore m → StreamHolder → Outcome m
  serve (gets size callback) s h = get_on threshold size callback s h
  serve (pulls callback) s h = pull_on threshold callback s h
  serve (stops fails) s h = stop_on fails s h
  serve drops s h = drop_on s h

  -- Every call keeps a stream well formed, on every branch: a pending consumer has no chunk ready,
  -- is reading none, and waits on a stream that runs; a pending producer holds no chunk, and the
  -- stream is not drained.
  pub serve-IsWellFormed :
      (c : Call) (s : BulkStore m) (h : StreamHolder)
      → IsWellFormed h
      → IsWellFormed (serve c s h).holder
  unfolding serve
  serve-IsWellFormed (gets size callback) s h w = get_on-IsWellFormed threshold size callback s h w
  serve-IsWellFormed (pulls callback) s h w = pull_on-IsWellFormed threshold callback s h w
  serve-IsWellFormed (stops fails) s h w = stop_on-IsWellFormed fails s h w
  serve-IsWellFormed drops s h w = drop_on-IsWellFormed s h w
