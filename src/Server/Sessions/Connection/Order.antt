-- ===== src/Server/Sessions/Connection/Order.antt =====
-- Messages go out in the order in which they are written, and which descriptors count as used after
-- them.
use libvineyard.Base.{
  ℕ, ◌≡◌, ◌⊎◌, refl, sym, ap, subst, ◌∙◌, Bool, true, false, none, some, List, [], ◌∷◌, ◌++◌,
  if◌then◌else◌, is_empty, arith, append-nil, append_assoc, All, All-mono, Bool-cases, List-cases,
  inl, inr,
}
use libvineyard.Base.Multimap.{member, member-insert}
use libvineyard.Server.Sessions.Connection.{
  Callback, Connection, new_connection, enqueue, do_write, do_write_then, send_fds, call_back,
  wrote, after_write, associate,
}

-- What happens to a connection: a message is written, by either `doWrite`; the write in progress ends;
-- a stream is pulled.
pub data Step (M : Type 0) : Type 0 where
  writes : Callback → M → Step M
  writing_ends : Step M
  pulls : ℕ → Step M

module _ {M : Type 0} where
  abbrev pub step : Step M → Connection M → Connection M
  step (writes callback message) c = enqueue callback message c
  step writing_ends c = wrote c
  step (pulls stream_id) c = associate stream_id c

  unfoldable pub run : List (Step M) → Connection M → Connection M
  run [] c = c
  run (s ∷ ss) c = run ss (step s c)

  -- The messages among the steps.
  abbrev pub messages : List (Step M) → List M
  messages [] = []
  messages (writes callback message ∷ ss) = message ∷ messages ss
  messages (writing_ends ∷ ss) = messages ss
  messages (pulls stream_id ∷ ss) = messages ss

  send_fds-written : (fds : List ℕ) (c : Connection M) → (send_fds fds c).written ≡ c.written
  unfolding send_fds
  send_fds-written [] c = refl
  send_fds-written (fd ∷ fds) c = send_fds-written fds _ ∙ ground arith

  send_fds-write_msgs :
      (fds : List ℕ) (c : Connection M) → (send_fds fds c).write_msgs ≡ c.write_msgs
  unfolding send_fds
  send_fds-write_msgs [] c = refl
  send_fds-write_msgs (fd ∷ fds) c = send_fds-write_msgs fds _ ∙ ground arith

  -- All messages so far, in order.
  abbrev all_messages : Connection M → List M
  all_messages c = c.written ++ c.write_msgs

  call_back-all : (b : Callback) (c : Connection M) → all_messages (call_back b c) ≡ all_messages c
  unfolding call_back
  call_back-all none c = refl
  call_back-all (some fds) c = rw (send_fds-written fds c, send_fds-write_msgs fds c)

  enqueue-all :
      (b : Callback) (m : M) (c : Connection M)
      → all_messages (enqueue b m c) ≡ all_messages c ++ m ∷ []
  unfolding enqueue
  enqueue-all b m c = elim (Bool-cases (is_empty c.write_msgs)) [
    | inl idle ↦ rw (idle, append_assoc c.written c.write_msgs (m ∷ []))
    | inr busy ↦ rw (busy, append_assoc c.written c.write_msgs (m ∷ []))
  ]

  next_write :
      (m : M) (rest : List M) (c : Connection M)
      → let d = record c { write_msgs = rest; written = c.written ++ m ∷ [] } in
        all_messages
          (if is_empty rest then call_back c.callback (record d { callback = none }) else d)
        ≡ c.written ++ m ∷ rest
  next_write m [] c = call_back-all c.callback _ ∙ append-nil (c.written ++ m ∷ [])
  next_write m (x ∷ rest) c = append_assoc c.written (m ∷ []) (x ∷ rest)

  wrote-all : (c : Connection M) → all_messages (wrote c) ≡ all_messages c
  unfolding wrote
  wrote-all c = elim (List-cases c.write_msgs) [
    | inl e ↦ rw e
    | inr (m, rest, e) ↦ rw e (next_write m rest c)
  ]

  run-fifo_from :
      (ss : List (Step M)) (c : Connection M)
      → all_messages (run ss c) ≡ all_messages c ++ messages ss
  unfolding run associate
  run-fifo_from [] c = sym (append-nil (all_messages c))
  run-fifo_from (writes b m ∷ ss) c =
      run-fifo_from ss (enqueue b m c)
      ∙ (ap (λ ms. ms ++ messages ss) (enqueue-all b m c)
          ∙ append_assoc (all_messages c) (m ∷ []) (messages ss))
  run-fifo_from (writing_ends ∷ ss) c =
      run-fifo_from ss (wrote c) ∙ ap (λ ms. ms ++ messages ss) (wrote-all c)
  run-fifo_from (pulls stream_id ∷ ss) c = run-fifo_from ss (associate stream_id c)

  -- What has gone out over a connection and then what waits is what has been written to it, in order.
  pub run-fifo :
      (ss : List (Step M))
      → let c = run ss new_connection in c.written ++ c.write_msgs ≡ messages ss
  run-fifo ss = run-fifo_from ss new_connection

  abbrev pub AllSent : List ℕ → Connection M → Type 0
  AllSent fds c = All (λ fd. member fd c.used_fds ≡ true) fds

  -- The descriptors are used, or are still to be.
  abbrev Follow : List ℕ → Connection M → Type 0
  Follow fds c = ((c.callback ≡ some fds) × (is_empty c.write_msgs ≡ false)) ⊎ AllSent fds c

  send_fds-keeps :
      (fd : ℕ) (fds : List ℕ) (c : Connection M)
      → member fd c.used_fds ≡ true
      → member fd (send_fds fds c).used_fds ≡ true
  unfolding send_fds
  send_fds-keeps fd [] c h = h
  send_fds-keeps fd (e ∷ fds) c h =
      send_fds-keeps fd fds _ (ground (arith, member-insert fd e c.used_fds))

  send_fds-all : (fds : List ℕ) (c : Connection M) → AllSent fds (send_fds fds c)
  unfolding send_fds
  send_fds-all [] c = tt
  send_fds-all (fd ∷ fds) c =
      (send_fds-keeps fd fds _ (ground (arith, member-insert fd fd c.used_fds)), send_fds-all fds _)

  snoc-is_empty : (ms : List M) (m : M) → is_empty (ms ++ m ∷ []) ≡ false
  snoc-is_empty [] m = refl
  snoc-is_empty (n ∷ ms) m = refl

  enqueue-Follow :
      (b : Callback) (m : M) (fds : List ℕ) (c : Connection M)
      → Follow fds c
      → Follow fds (enqueue b m c)
  unfolding enqueue
  enqueue-Follow b m fds c (inl (e, busy)) = rw busy (inl (e, snoc-is_empty c.write_msgs m))
  enqueue-Follow b m fds c (inr sent) = inr (elim (Bool-cases (is_empty c.write_msgs)) [
    | inl idle ↦ rw idle sent
    | inr busy ↦ rw busy sent
  ])

  call_back-keeps :
      (fds : List ℕ) (b : Callback) (c : Connection M) → AllSent fds c → AllSent fds (call_back b c)
  unfolding call_back
  call_back-keeps fds none c sent = sent
  call_back-keeps fds (some later) c sent = All-mono fds (λ fd h. send_fds-keeps fd later c h) sent

  next_Follow :
      (fds : List ℕ) (m : M) (rest : List M) (c : Connection M)
      → (c.callback ≡ some fds) ⊎ AllSent fds c
      → let d = record c { write_msgs = rest; written = c.written ++ m ∷ [] } in
        Follow fds
          (if is_empty rest then call_back c.callback (record d { callback = none }) else d)
  unfolding call_back
  next_Follow fds m [] c (inl e) = inr (rw e (send_fds-all fds _))
  next_Follow fds m [] c (inr sent) = inr (call_back-keeps fds c.callback _ sent)
  next_Follow fds m (x ∷ rest) c (inl e) = inl (e, refl)
  next_Follow fds m (x ∷ rest) c (inr sent) = inr sent

  wrote_idle : (c : Connection M) → c.write_msgs ≡ [] → wrote c ≡ c
  unfolding wrote
  wrote_idle c e = ap (λ ms. after_write ms c) e

  wrote-Follow : (fds : List ℕ) (c : Connection M) → Follow fds c → Follow fds (wrote c)
  unfolding wrote
  wrote-Follow fds c f = elim (List-cases c.write_msgs) [
    | inl e ↦ subst (Follow fds) (sym (wrote_idle c e)) f
    | inr (m, rest, e) ↦
        rw e (next_Follow fds m rest c (elim f [ inl (k, busy) ↦ inl k | inr sent ↦ inr sent ]))
  ]

  run-Follow :
      (ss : List (Step M)) (fds : List ℕ) (c : Connection M) → Follow fds c → Follow fds (run ss c)
  unfolding run associate
  run-Follow [] fds c f = f
  run-Follow (writes b m ∷ ss) fds c f = run-Follow ss fds _ (enqueue-Follow b m fds c f)
  run-Follow (writing_ends ∷ ss) fds c f = run-Follow ss fds _ (wrote-Follow fds c f)
  run-Follow (pulls stream_id ∷ ss) fds c f = run-Follow ss fds _ f

  starts_Follow :
      (m : M) (fds : List ℕ) (c : Connection M)
      → is_empty c.write_msgs ≡ true
      → Follow fds (do_write_then m fds c)
  unfolding enqueue
  starts_Follow m fds c idle = rw idle (inl (refl, snoc-is_empty c.write_msgs m))

  pub used_follow :
      (m : M) (fds : List ℕ) (c : Connection M) (ss : List (Step M))
      → is_empty c.write_msgs ≡ true
      → (run ss (do_write_then m fds c)).write_msgs ≡ []
      → AllSent fds (run ss (do_write_then m fds c))
  used_follow m fds c ss idle over =
      elim (run-Follow ss fds (do_write_then m fds c) (starts_Follow m fds c idle)) [
        | inl (e, busy) ↦ absurd (waiting over busy)
        | inr sent ↦ sent
      ]
    where
      waiting : {ms : List M} → ms ≡ [] → is_empty ms ≡ false → ⊥
      waiting e h = absurd (clash (ap is_empty e) h)
        where
          clash : {a : Bool} → a ≡ true → a ≡ false → ⊥
          clash h k = cc

  -- Where a write is in progress, a callback is dropped.
  pub forgets :
      (m : M) (fds : List ℕ) (c : Connection M)
      → is_empty c.write_msgs ≡ false
      → do_write_then m fds c ≡ do_write m c
  unfolding enqueue
  forgets m fds c busy = rw busy
