-- ===== src/Common/BlockingQueue/Producers.antt =====
-- The threads at a PcBlockingQueue: as at a BlockingQueue, and those that have lowered the number of
-- producers and have yet to look whether it is 0.
use libvineyard.Base.{
  ℕ, suc, ◌+◌, ◌-◌, ◌≤◌, ◌<◌, ◌≡◌, refl, ap, ◌⊎◌, inl, inr, List-cases, Bool, true, false, none,
  some, List, [], ◌∷◌, ◌++◌, length, length-append, append_assoc, append-nil, arith, ◌==◌,
  if◌then◌else◌,
}
use libvineyard.Common.BlockingQueue.{PcBlockingQueue, got, ended, put, take, end, dec_producer_num}
use libvineyard.Common.BlockingQueue.Monitor.{
  Threads, no_threads, notify_empty, notify_full, looks_to_push, looks_to_pop,
}

-- The end of `DecProducerNum`: `notify_all` on empty_, once there are no producers.
unfoldable pub notify_all_empty : ℕ → Threads → Threads
notify_all_empty producer_num t =
    if producer_num == 0
    then record t { empty_asleep = 0; empty_woken = t.empty_woken + t.empty_asleep }
    else t

-- A step of some thread, the items that it puts and gets, and the number of threads that have
-- lowered the number of producers and have yet to look at it.
pub data Step {ℓ} {T : Type ℓ} (q : PcBlockingQueue T) (t : Threads) (looking : ℕ)
    : List T → List T → PcBlockingQueue T → Threads → ℕ → Type ℓ where
  puts :
      {q' : PcBlockingQueue T} {u : Threads} (woken : Bool) (item : T)
      → looks_to_push woken t ≡ some u
      → put item q ≡ some q'
      → Step q t looking (item ∷ []) [] q' (record u { notifying = suc u.notifying }) looking
  put_waits :
      {u : Threads} (woken : Bool) (item : T)
      → looks_to_push woken t ≡ some u
      → put item q ≡ none
      → Step q t looking [] [] q (record u { full_asleep = suc u.full_asleep }) looking
  notifies :
      0 < t.notifying
      → Step q t looking [] [] q (notify_empty (record t { notifying = t.notifying - 1 })) looking
  takes :
      {q' : PcBlockingQueue T} {u : Threads} (woken : Bool) (item : T)
      → looks_to_pop woken t ≡ some u
      → take q ≡ some (got item, q')
      → Step q t looking [] (item ∷ []) q' (notify_full u) looking
  take_ends :
      {q' : PcBlockingQueue T} {u : Threads} (woken : Bool)
      → looks_to_pop woken t ≡ some u
      → take q ≡ some (ended, q')
      → Step q t looking [] [] q' u looking
  take_waits :
      {u : Threads} (woken : Bool)
      → looks_to_pop woken t ≡ some u
      → take q ≡ none
      → Step q t looking [] [] q (record u { empty_asleep = suc u.empty_asleep }) looking
  lowers : Step q t looking [] [] (dec_producer_num q) t (suc looking)
  looks : 0 < looking → Step q t looking [] [] q (notify_all_empty q.producer_num t) (looking - 1)
  spurious_put :
      0 < t.full_asleep
      → Step q t looking [] [] q
          (record t { full_asleep = t.full_asleep - 1; full_woken = suc t.full_woken })
          looking
  spurious_take :
      0 < t.empty_asleep
      → Step q t looking [] [] q
          (record t { empty_asleep = t.empty_asleep - 1; empty_woken = suc t.empty_woken })
          looking

-- What can come of an empty queue with the limit and a number of producers, once the items have
-- been put and got.
pub data Reached {ℓ} {T : Type ℓ} (limit producers : ℕ)
    : PcBlockingQueue T → Threads → ℕ → List T → List T → Type ℓ where
  start :
      Reached limit producers
        (record { queue = []; size_limit = limit; producer_num = producers })
        no_threads
        0
        []
        []
  next :
      {q q' : PcBlockingQueue T} {t t' : Threads} {looking looking' : ℕ}
      {before after new gone : List T}
      → Reached limit producers q t looking before after
      → Step q t looking new gone q' t' looking'
      → Reached limit producers q' t' looking' (before ++ new) (after ++ gone)

-- The queue keeps to its limit, and who sleeps does so for a reason.
pub record IsSound {ℓ} {T : Type ℓ} (limit : ℕ) (q : PcBlockingQueue T) (t : Threads) (looking : ℕ)
    : Type ℓ where
  pub same_limit : q.size_limit ≡ limit
  pub within : length q.queue ≤ limit
  pub items_sent : 0 < t.empty_asleep → length q.queue ≤ t.empty_woken + t.notifying
  pub room_sent : 0 < t.full_asleep → limit ≤ length q.queue + t.full_woken
  pub end_sent : 0 < t.empty_asleep → q.producer_num ≡ 0 → 0 < looking

module _ {ℓ} {T : Type ℓ} where
  Step-IsSound :
      {q q' : PcBlockingQueue T} {t t' : Threads} {looking looking' : ℕ} {new gone : List T}
      (limit : ℕ)
      → Step q t looking new gone q' t' looking'
      → IsSound limit q t looking
      → IsSound limit q' t' looking'
  unfolding put take dec_producer_num notify_empty notify_full notify_all_empty looks_to_push
      looks_to_pop
  Step-IsSound {q} limit (puts woken item e f) w = ground (arith, length-append q.queue (item ∷ []))
  Step-IsSound limit (put_waits woken item e f) w = ground arith
  Step-IsSound limit (notifies e) w = ground arith
  Step-IsSound limit (takes woken item e f) w = ground arith
  Step-IsSound limit (take_ends woken e f) w = ground arith
  Step-IsSound limit (take_waits woken e f) w = ground arith
  Step-IsSound limit lowers w = ground arith
  Step-IsSound limit (looks e) w = ground arith
  Step-IsSound limit (spurious_put e) w = ground arith
  Step-IsSound limit (spurious_take e) w = ground arith

  Step-queue :
      {q q' : PcBlockingQueue T} {t t' : Threads} {looking looking' : ℕ} {new gone : List T}
      → Step q t looking new gone q' t' looking'
      → q.queue ++ new ≡ gone ++ q'.queue
  unfolding put take dec_producer_num
  Step-queue (puts woken item e f) = ground arith
  Step-queue {q} (put_waits woken item e f) = append-nil q.queue
  Step-queue {q} (notifies e) = append-nil q.queue
  Step-queue {q} (takes woken item e f) = ground (arith, append-nil q.queue)
  Step-queue {q} (take_ends woken e f) = ground (arith, append-nil q.queue)
  Step-queue {q} (take_waits woken e f) = append-nil q.queue
  Step-queue {q} lowers = append-nil q.queue
  Step-queue {q} (looks e) = append-nil q.queue
  Step-queue {q} (spurious_put e) = append-nil q.queue
  Step-queue {q} (spurious_take e) = append-nil q.queue

module _ {ℓ} {T : Type ℓ} {limit producers : ℕ} where
  Reached-IsSound :
      {q : PcBlockingQueue T} {t : Threads} {looking : ℕ} {before after : List T}
      → Reached limit producers q t looking before after
      → IsSound limit q t looking
  Reached-IsSound start = ground arith
  Reached-IsSound (next r s) = Step-IsSound limit s (Reached-IsSound r)

  Reached-queue :
      {q : PcBlockingQueue T} {t : Threads} {looking : ℕ} {before after : List T}
      → Reached limit producers q t looking before after
      → before ≡ after ++ q.queue
  Reached-queue start = refl
  Reached-queue (next {q} {q'} {before = before} {after} {new} {gone} r s) =
      rw (Reached-queue r, append_assoc after q.queue new, append_assoc after gone q'.queue)
        (ap (λ xs. after ++ xs) (Step-queue s))

  -- A queue with producers ends cleanly: once the number of producers is 0 and no thread that has
  -- lowered it has yet to look at it, no thread sleeps in Get. Get then answers false just where all
  -- that was put has been got, in order; before that it gives the front of the queue.
  pub ends_cleanly :
      {q : PcBlockingQueue T} {t : Threads} {before after : List T}
      → Reached limit producers q t 0 before after
      → q.producer_num ≡ 0
      → (t.empty_asleep ≡ 0)
        × (before ≡ after ++ q.queue)
        × (((before ≡ after) × (end q ≡ true) × (take q ≡ some (ended, q)))
            ⊎ ((x : T) × (rest : List T) × (before ≡ after ++ x ∷ rest)
                × (end q ≡ false)
                × (take q ≡ some (got x, record q { queue = rest }))))
  unfolding take end
  ends_cleanly {q} {after = after} r none_left =
      let w = Reached-IsSound r in
      let all = Reached-queue r in
      (
        ground arith,
        all,
        elim (List-cases q.queue) [
          | inl e ↦ inl (ground (arith, append-nil after))
          | inr (x, rest, e) ↦ inr (x, rest, ground arith, ground arith, ground arith)
        ],
      )
