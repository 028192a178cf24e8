-- ===== src/Streams/Fifo.antt =====
-- The chunks that the producer is given and those that the consumer is given, over a history.
use libvineyard.Base.{
  ℕ, All, ◌≡◌, refl, true, false, List, [], ◌∷◌, ◌++◌, arith, append-nil, append_assoc,
}
use libvineyard.Memory.Malloc.{Malloc}
use libvineyard.Memory.BulkStore.{BulkStore}
use libvineyard.Streams.{StreamHolder, new_stream, seal}
use libvineyard.Streams.Calls.{get_on, pull_on, stop_on}
use libvineyard.Streams.Invariant.{
  IsWellFormed, Call, gets, pulls, stops, drops, serve, serve-IsWellFormed, new_stream-IsWellFormed,
}
use libvineyard.Streams.Pending.{
  to_producer, to_consumer, pending, IsNotDrop, get_sealed-pending, seal-pending,
  drop_reading-pending, stop_reader-pending,
}

module _ {m : Malloc} (threshold : ℕ) where
  -- One call: what the consumer gets comes off the front, what the producer gets joins the end.
  serve-pending :
      (c : Call) (s : BulkStore m) (h : StreamHolder)
      → IsNotDrop c
      → IsWellFormed h
      → let o = serve threshold c s h in
        pending h ++ to_producer c o ≡ to_consumer c o ++ pending o.holder
  unfolding serve get_on pull_on stop_on
  serve-pending (gets size callback) s h n w = ground (
    arith,
    seal-pending h,
    append-nil (pending h),
    get_sealed-pending threshold size callback s (seal h),
  )
  serve-pending (pulls callback) s h n w =
      ground (arith, append-nil (pending h), drop_reading-pending threshold callback s h w)
  serve-pending (stops false) s h n w = ground (
    arith,
    append-nil (pending h),
    seal-pending h,
    stop_reader-pending s (record (seal h) { drained = true }),
  )
  serve-pending (stops true) s h n w = ground (
    arith,
    append-nil (pending h),
    seal-pending h,
    stop_reader-pending s (record (seal h) { failed = true }),
  )
  serve-pending drops s h n w = absurd n

-- A history of one stream: the state, the chunks given to the producer and to the consumer so far.
pub record History (m : Malloc) : Type 0 where
  pub store : BulkStore m
  pub holder : StreamHolder
  pub produced : List ℕ
  pub consumed : List ℕ

module _ {m : Malloc} (threshold : ℕ) where
  unfoldable pub replay : List Call → History m → History m
  replay [] t = t
  replay (c ∷ cs) t =
      let o = serve threshold c t.store t.holder in
      replay cs (record {
        store = o.store;
        holder = o.holder;
        produced = t.produced ++ to_producer c o;
        consumed = t.consumed ++ to_consumer c o;
      })

  replay-from :
      (cs : List Call) (t : History m)
      → All IsNotDrop cs
      → IsWellFormed t.holder
      → t.produced ≡ t.consumed ++ pending t.holder
      → (replay cs t).produced ≡ (replay cs t).consumed ++ pending (replay cs t).holder
  unfolding replay
  replay-from [] t n w e = e
  replay-from (c ∷ cs) t n w e =
      let o = serve threshold c t.store t.holder in
      replay-from cs _ n.1 (serve-IsWellFormed threshold c t.store t.holder w) (
        ground (
          arith,
          serve-pending threshold c t.store t.holder n.0 w,
          append_assoc t.consumed (pending t.holder) (to_producer c o),
          append_assoc t.consumed (to_consumer c o) (pending o.holder),
        ))

abbrev pub started : {m : Malloc} → BulkStore m → History m
started s = record { store = s; holder = new_stream; produced = []; consumed = [] }

-- On a new stream, over any history of Get, Pull and Stop calls: the chunks that the consumer has
-- been given are those that the producer had been given, in that order, each once, up to those
-- that wait in the queue or are being written.
pub replay_fifo :
    {m : Malloc} (threshold : ℕ) (cs : List Call) (s : BulkStore m)
    → All IsNotDrop cs
    → let t = replay threshold cs (started s) in t.produced ≡ t.consumed ++ pending t.holder
replay_fifo threshold cs s n = replay-from threshold cs (started s) n new_stream-IsWellFormed refl
