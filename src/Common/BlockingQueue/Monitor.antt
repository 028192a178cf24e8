-- ===== src/Common/BlockingQueue/Monitor.antt =====
-- The threads at a BlockingQueue: those asleep on its two condition variables, those woken that
-- have yet to look again, and those that have pushed and have yet to notify.
use libvineyard.Base.{
  ℕ, suc, ◌+◌, ◌-◌, ◌≤◌, ◌<◌, ◌≡◌, refl, sym, ap, ◌∙◌, ◌⊎◌, inl, inr, zero-cases, nothing_in, Bool,
  true, false, Option, none, some, List, [], ◌∷◌, ◌++◌, length, length-append, append_assoc,
  append-nil, arith, ltb, if◌then◌else◌,
}
use libvineyard.Common.BlockingQueue.{BlockingQueue, set_limit, push, pop, clear}

pub record Threads : Type 0 where
  pub empty_asleep : ℕ
  pub empty_woken : ℕ
  pub full_asleep : ℕ
  pub full_woken : ℕ
  pub notifying : ℕ

abbrev pub no_threads : Threads
no_threads = record {
  empty_asleep = 0;
  empty_woken = 0;
  full_asleep = 0;
  full_woken = 0;
  notifying = 0;
}

-- `notify_one` on either variable wakes one thread, if there is one.
unfoldable pub notify_empty : Threads → Threads
notify_empty t =
    if ltb 0 t.empty_asleep
    then record t { empty_asleep = t.empty_asleep - 1; empty_woken = suc t.empty_woken }
    else t

unfoldable pub notify_full : Threads → Threads
notify_full t =
    if ltb 0 t.full_asleep
    then record t { full_asleep = t.full_asleep - 1; full_woken = suc t.full_woken }
    else t

-- A thread that looks at the queue has just come, or is one of the woken.
unfoldable pub looks_to_push : Bool → Threads → Option Threads
looks_to_push false t = some t
looks_to_push true t =
    if ltb 0 t.full_woken then some (record t { full_woken = t.full_woken - 1 }) else none

unfoldable pub looks_to_pop : Bool → Threads → Option Threads
looks_to_pop false t = some t
looks_to_pop true t =
    if ltb 0 t.empty_woken then some (record t { empty_woken = t.empty_woken - 1 }) else none

-- A step of some thread, and the items that it pushes and pops. A wait may also end for no reason.
pub data Step {ℓ} {T : Type ℓ} (q : BlockingQueue T) (t : Threads)
    : List T → List T → BlockingQueue T → Threads → Type ℓ where
  pushes :
      {q' : BlockingQueue T} {u : Threads} (woken : Bool) (item : T)
      → looks_to_push woken t ≡ some u
      → push item q ≡ some q'
      → Step q t (item ∷ []) [] q' (record u { notifying = suc u.notifying })
  push_waits :
      {u : Threads} (woken : Bool) (item : T)
      → looks_to_push woken t ≡ some u
      → push item q ≡ none
      → Step q t [] [] q (record u { full_asleep = suc u.full_asleep })
  notifies :
      0 < t.notifying → Step q t [] [] q (notify_empty (record t { notifying = t.notifying - 1 }))
  pops :
      {q' : BlockingQueue T} {u : Threads} (woken : Bool) (item : T)
      → looks_to_pop woken t ≡ some u
      → pop q ≡ some (item, q')
      → Step q t [] (item ∷ []) q' (notify_full u)
  pop_waits :
      {u : Threads} (woken : Bool)
      → looks_to_pop woken t ≡ some u
      → pop q ≡ none
      → Step q t [] [] q (record u { empty_asleep = suc u.empty_asleep })
  spurious_push :
      0 < t.full_asleep
      → Step q t [] [] q
          (record t { full_asleep = t.full_asleep - 1; full_woken = suc t.full_woken })
  spurious_pop :
      0 < t.empty_asleep
      → Step q t [] [] q
          (record t { empty_asleep = t.empty_asleep - 1; empty_woken = suc t.empty_woken })

-- What can come of an empty queue, once items have been pushed and others have gone, popped or cleared:
-- `most` is the greatest limit so far, and `steady` says that `Clear` and `SetLimit`, which take no lock
-- and notify nobody, have not been called. Each of these is one step here.
pub data Reached {ℓ} {T : Type ℓ} (limit : ℕ)
    : BlockingQueue T → Threads → List T → List T → ℕ → Bool → Type ℓ where
  start : Reached limit (record { queue = []; size_limit = limit }) no_threads [] [] limit true
  next :
      {q q' : BlockingQueue T} {t t' : Threads} {pushed left new gone : List T} {most : ℕ}
      {steady : Bool}
      → Reached limit q t pushed left most steady
      → Step q t new gone q' t'
      → Reached limit q' t' (pushed ++ new) (left ++ gone) most steady
  clears :
      {q : BlockingQueue T} {t : Threads} {pushed left : List T} {most : ℕ} {steady : Bool}
      → Reached limit q t pushed left most steady
      → Reached limit (clear q) t pushed (left ++ q.queue) most false
  sets_limit :
      {q : BlockingQueue T} {t : Threads} {pushed left : List T} {most : ℕ} {steady : Bool}
      (new_limit : ℕ)
      → Reached limit q t pushed left most steady
      → Reached limit
          (set_limit new_limit q)
          t
          pushed
          left
          (if ltb most new_limit then new_limit else most)
          false

-- The queue keeps to the greatest limit. Who sleeps on a variable sleeps for a reason: there is no
-- item, or, while the queue is steady, no room, that some thread which is awake has not been sent for.
pub record IsSound {ℓ} {T : Type ℓ} (most : ℕ) (steady : Bool) (q : BlockingQueue T) (t : Threads)
    : Type ℓ where
  pub same_limit : (steady ≡ false) ⊎ (q.size_limit ≡ most)
  pub below : q.size_limit ≤ most
  pub within : length q.queue ≤ most
  pub items_sent : 0 < t.empty_asleep → length q.queue ≤ t.empty_woken + t.notifying
  pub room_sent :
      0 < t.full_asleep → (steady ≡ false) ⊎ (q.size_limit ≤ length q.queue + t.full_woken)

module _ {ℓ} {T : Type ℓ} where
  Step-IsSound :
      {q q' : BlockingQueue T} {t t' : Threads} {new gone : List T} (most : ℕ) (steady : Bool)
      → Step q t new gone q' t'
      → IsSound most steady q t
      → IsSound most steady q' t'
  unfolding push pop notify_empty notify_full looks_to_push looks_to_pop
  Step-IsSound {q} most steady (pushes woken item e f) w =
      ground (arith, length-append q.queue (item ∷ []))
  Step-IsSound most steady (push_waits woken item e f) w = ground arith
  Step-IsSound most steady (notifies e) w = ground arith
  Step-IsSound most steady (pops woken item e f) w = ground arith
  Step-IsSound most steady (pop_waits woken e f) w = ground arith
  Step-IsSound most steady (spurious_push e) w = ground arith
  Step-IsSound most steady (spurious_pop e) w = ground arith

  clear-IsSound :
      {q : BlockingQueue T} {t : Threads} (most : ℕ) (steady : Bool)
      → IsSound most steady q t
      → IsSound most false (clear q) t
  unfolding clear
  clear-IsSound most steady w = ground arith

  set_limit-IsSound :
      {q : BlockingQueue T} {t : Threads} (most : ℕ) (steady : Bool) (limit : ℕ)
      → IsSound most steady q t
      → IsSound (if ltb most limit then limit else most) false (set_limit limit q) t
  unfolding set_limit
  set_limit-IsSound most steady limit w = ground arith

  Step-queue :
      {q q' : BlockingQueue T} {t t' : Threads} {new gone : List T}
      → Step q t new gone q' t'
      → q.queue ++ new ≡ gone ++ q'.queue
  unfolding push pop
  Step-queue (pushes woken item e f) = ground arith
  Step-queue {q} (push_waits woken item e f) = append-nil q.queue
  Step-queue {q} (notifies e) = append-nil q.queue
  Step-queue {q} (pops woken item e f) = ground (arith, append-nil q.queue)
  Step-queue {q} (pop_waits woken e f) = append-nil q.queue
  Step-queue {q} (spurious_push e) = append-nil q.queue
  Step-queue {q} (spurious_pop e) = append-nil q.queue

module _ {ℓ} {T : Type ℓ} {limit : ℕ} where
  pub Reached-IsSound :
      {q : BlockingQueue T} {t : Threads} {pushed left : List T} {most : ℕ} {steady : Bool}
      → Reached limit q t pushed left most steady
      → IsSound most steady q t
  Reached-IsSound start = ground arith
  Reached-IsSound (next {most = most} {steady} r s) = Step-IsSound most steady s (Reached-IsSound r)
  Reached-IsSound (clears {most = most} {steady} r) = clear-IsSound most steady (Reached-IsSound r)
  Reached-IsSound (sets_limit {most = most} {steady} new_limit r) =
      set_limit-IsSound most steady new_limit (Reached-IsSound r)

  Reached-queue :
      {q : BlockingQueue T} {t : Threads} {pushed left : List T} {most : ℕ} {steady : Bool}
      → Reached limit q t pushed left most steady
      → pushed ≡ left ++ q.queue
  unfolding clear set_limit
  Reached-queue start = refl
  Reached-queue (next {q} {q'} {t} {t'} {pushed} {left} {new} {gone} r s) =
      rw (Reached-queue r, append_assoc left q.queue new, append_assoc left gone q'.queue)
        (ap (λ xs. left ++ xs) (Step-queue s))
  Reached-queue (clears {q} {t} {pushed} {left} r) =
      Reached-queue r ∙ sym (append-nil (left ++ q.queue))
  Reached-queue (sets_limit new_limit r) = Reached-queue r

  -- Whatever the threads do, in whatever order, `Clear` and `SetLimit` included, the items leave a
  -- BlockingQueue, popped or cleared, in the order in which they went in, each once, and what has not
  -- left is in the queue, which keeps to the greatest limit that it has had.
  pub Reached-fifo :
      {q : BlockingQueue T} {t : Threads} {pushed left : List T} {most : ℕ} {steady : Bool}
      → Reached limit q t pushed left most steady
      → (pushed ≡ left ++ q.queue) × (length q.queue ≤ most)
  Reached-fifo r = (Reached-queue r, (Reached-IsSound r).within)

  -- Once no woken thread has yet to look again and no notification is outstanding, a thread sleeps in
  -- Pop or Get only if the queue is empty. Unless `Clear` or `SetLimit` has been called, a thread sleeps
  -- in Push only if it is full, and, with a limit that is not 0, not both kinds sleep.
  pub no_lost_wakeup :
      {q : BlockingQueue T} {t : Threads} {pushed left : List T} {most : ℕ} {steady : Bool}
      → Reached limit q t pushed left most steady
      → t.empty_woken ≡ 0
      → t.full_woken ≡ 0
      → t.notifying ≡ 0
      → ((t.empty_asleep ≡ 0) ⊎ (q.queue ≡ []))
        × ((steady ≡ false) ⊎ (t.full_asleep ≡ 0) ⊎ (length q.queue ≡ q.size_limit))
        × ((steady ≡ false) ⊎ (q.size_limit ≡ 0) ⊎ (t.empty_asleep ≡ 0) ⊎ (t.full_asleep ≡ 0))
  no_lost_wakeup {q} {t} {pushed} {left} {most} {steady} r a b c =
      let w = Reached-IsSound r in
      (
        elim (zero-cases t.empty_asleep) [
          | inl e ↦ inl e
          | inr p ↦ inr (nothing_in q.queue (omega (arith, w.items_sent p)))
        ],
        ground (arith, w.items_sent, w.room_sent, w.same_limit, w.within),
        ground (arith, w.items_sent, w.room_sent, w.same_limit, w.within),
      )

module _ {ℓ} {T : Type ℓ} where
  -- Clear of a full queue strands the threads that sleep in Push: afterwards there is room, and no
  -- thread has been sent for it.
  pub clear_strands :
      (q : BlockingQueue T) (t : Threads)
      → IsSound q.size_limit true q t
      → t.full_woken ≡ 0
      → 0 < t.full_asleep
      → 0 < q.size_limit
      → ((clear q).queue ≡ [])
        × (length q.queue ≡ q.size_limit)
        × ¬ IsSound q.size_limit true (clear q) t
  unfolding clear
  clear_strands q t w quiet sleeps room = (refl, ground arith, (λ v. ground arith))
