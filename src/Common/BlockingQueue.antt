-- ===== src/Common/BlockingQueue.antt =====
-- src/common/util/blocking_queue.h: the three queues. A step under the lock answers none where the
-- thread waits on a condition variable; the front of a queue comes first.
pub mod Monitor
pub mod Producers
pub mod Tests
use libvineyard.Base.{
  ℕ, ◌+◌, ◌-◌, ◌%◌, ◌^◌, Bool, true, false, ◌&&◌, not, Option, none, some, List, [], ◌∷◌, ◌++◌,
  length, is_empty, ltb, leb, ◌==◌, if◌then◌else◌,
}

-- The limit of a queue that `SetLimit` was not called for.
abbrev pub size_max : ℕ
size_max = 2 ^ 64 - 1

pub record BlockingQueue {ℓ} (T : Type ℓ) : Type ℓ where
  pub queue : List T
  pub size_limit : ℕ

-- `producer_num_` is the bit pattern of an int.
pub record PcBlockingQueue {ℓ} (T : Type ℓ) : Type ℓ where
  pub queue : List T
  pub size_limit : ℕ
  pub producer_num : ℕ

-- What `Get` of a queue with producers answers: an item, its out-parameter, or false.
pub data Got {ℓ} (T : Type ℓ) : Type ℓ where
  got : T → Got T
  ended : Got T

module _ {ℓ} {T : Type ℓ} where
  abbrev pub new_queue : BlockingQueue T
  new_queue = record { queue = []; size_limit = size_max }

  unfoldable pub set_limit : ℕ → BlockingQueue T → BlockingQueue T
  set_limit limit q = record q { size_limit = limit }

  unfoldable pub push : T → BlockingQueue T → Option (BlockingQueue T)
  push item q =
      if leb q.size_limit (length q.queue)
      then none
      else some (record q { queue = q.queue ++ item ∷ [] })

  -- `Pop` and `Get`.
  unfoldable pub pop : BlockingQueue T → Option (T × BlockingQueue T)
  pop q = elim q.queue [ [] ↦ none | x ∷ rest ↦ some (x, record q { queue = rest }) ]

  unfoldable pub clear : BlockingQueue T → BlockingQueue T
  clear q = record q { queue = [] }

  -- `SpinBlockingQueue::Get`; none is undefined behaviour, the front of an empty deque.
  unfoldable pub spin_get : List T → Option (T × List T)
  spin_get [] = none
  spin_get (x ∷ xs) = some (x, xs)

  unfoldable pub spin_push : T → List T → List T
  spin_push item queue = queue ++ item ∷ []

  unfoldable pub set_producer_num : ℕ → PcBlockingQueue T → PcBlockingQueue T
  set_producer_num pn q = record q { producer_num = pn }

  unfoldable pub dec_producer_num : PcBlockingQueue T → PcBlockingQueue T
  dec_producer_num q = record q { producer_num = (q.producer_num + 2 ^ 32 - 1) % 2 ^ 32 }

  unfoldable pub put : T → PcBlockingQueue T → Option (PcBlockingQueue T)
  put item q =
      if leb q.size_limit (length q.queue)
      then none
      else some (record q { queue = q.queue ++ item ∷ [] })

  unfoldable pub take : PcBlockingQueue T → Option (Got T × PcBlockingQueue T)
  take q = elim q.queue [
    | [] ↦ if q.producer_num == 0 then some (ended, q) else none
    | x ∷ rest ↦ some (got x, record q { queue = rest })
  ]

  unfoldable pub end : PcBlockingQueue T → Bool
  end q = is_empty q.queue && q.producer_num == 0
