-- ===== src/Common/BlockingQueue/Tests.antt =====
-- The queues on concrete inputs.
use libvineyard.Base.{ℕ, ◌≡◌, refl, ◌≤◌, ◌⊎◌, true, false, some, List, [], ◌∷◌, ◌++◌, arith}
use libvineyard.Common.BlockingQueue.{
  BlockingQueue, PcBlockingQueue, push, pop, clear, set_limit, put, take, got, ended, end,
  dec_producer_num,
}
use libvineyard.Common.BlockingQueue.Monitor
use libvineyard.Common.BlockingQueue.Monitor.{
  Threads, no_threads, looks_to_push, looks_to_pop, notify_empty, notify_full, pushes, push_waits,
  pop_waits, notifies, pops, Reached-fifo, no_lost_wakeup, clear_strands, IsSound,
}
use libvineyard.Common.BlockingQueue.Producers
use libvineyard.Common.BlockingQueue.Producers.{puts, takes, lowers, looks, ends_cleanly}

abbrev items : List ℕ
items = 7 ∷ []

abbrev one : ℕ
one = 1

abbrev none_asleep : ℕ
none_asleep = 0

abbrev holding : List ℕ → BlockingQueue ℕ
holding xs = record { queue = xs; size_limit = 1 }

-- One thread has pushed 7 and notified, another sleeps in Push.
abbrev blocked : Threads
blocked = record no_threads { full_asleep = 1 }

full_queue : Monitor.Reached 1 (holding (7 ∷ [])) blocked (7 ∷ []) [] 1 true
unfolding push looks_to_push notify_empty
full_queue =
    Monitor.next
      (Monitor.next (Monitor.next Monitor.start (pushes false 7 refl refl))
        (notifies (omega arith)))
      (push_waits false 8 refl refl)

-- Then the 7 is popped and the sleeper woken.
emptied :
    Monitor.Reached 1 (holding []) (record no_threads { full_woken = 1 }) (7 ∷ []) (7 ∷ []) 1 true
unfolding pop looks_to_pop notify_full
emptied = Monitor.next full_queue (pops false 7 refl refl)

-- The limit is raised to 3, 9 is pushed, and the queue is cleared.
cleared :
    Monitor.Reached {T = ℕ} 1
      (record { queue = []; size_limit = 3 })
      (record no_threads { full_woken = 1; notifying = 1 })
      (7 ∷ 9 ∷ [])
      (7 ∷ 9 ∷ [])
      3
      false
unfolding push looks_to_push clear set_limit
cleared = Monitor.clears (Monitor.next (Monitor.sets_limit 3 emptied) (pushes false 9 refl refl))

abbrev both_items : List ℕ
both_items = 7 ∷ 9 ∷ []

Reached-fifo_example : (both_items ≡ both_items ++ []) × (0 ≤ 3)
Reached-fifo_example = Reached-fifo cleared

no_lost_wakeup_example :
    ((none_asleep ≡ 0) ⊎ (items ≡ []))
    × ((true ≡ false) ⊎ (one ≡ 0) ⊎ (one ≡ 1))
    × ((true ≡ false) ⊎ (one ≡ 0) ⊎ (none_asleep ≡ 0) ⊎ (one ≡ 0))
no_lost_wakeup_example = no_lost_wakeup full_queue refl refl refl

abbrev produced : List ℕ → ℕ → PcBlockingQueue ℕ
produced xs producers = record { queue = xs; size_limit = 4; producer_num = producers }

-- The one producer puts 7 and leaves.
left : Producers.Reached 4 1 (produced (7 ∷ []) 0) no_threads 0 (7 ∷ []) []
unfolding put dec_producer_num looks_to_push notify_empty Producers.notify_all_empty
left =
    Producers.next
      (Producers.next
        (Producers.next (Producers.next Producers.start (puts false 7 refl refl))
          (Producers.notifies (omega arith)))
        lowers)
      (looks (omega arith))

ends_cleanly_example :
    (none_asleep ≡ 0)
    × (items ≡ [] ++ items)
    × (((items ≡ [])
          × (end (produced (7 ∷ []) 0) ≡ true)
          × (take (produced (7 ∷ []) 0) ≡ some (ended, produced (7 ∷ []) 0)))
        ⊎ ((x : ℕ) × (rest : List ℕ) × (items ≡ [] ++ x ∷ rest)
            × (end (produced (7 ∷ []) 0) ≡ false)
            × (take (produced (7 ∷ []) 0) ≡ some (got x, produced rest 0))))
ends_cleanly_example = ends_cleanly left refl
