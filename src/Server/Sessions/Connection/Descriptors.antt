-- ===== src/Server/Sessions/Connection/Descriptors.antt =====
-- Which descriptors a connection sends, and how often.
use libvineyard.Base.{
  ℕ, suc, ◌+◌, ◌≡◌, refl, ap, ◌∙◌, Bool, true, false, not, ◌&&◌, none, some, List, [], ◌∷◌, ◌++◌,
  if◌then◌else◌, is_empty, arith, All, All-mono, Bool-cases, inl, inr, ◌==◌,
}
use libvineyard.Base.Multimap.{member, member-insert}
use libvineyard.Server.Sessions.Connection.{
  Callback, Connection, new_connection, enqueue, do_write_then, send_fds, call_back, wrote,
  after_write, associate,
}
use libvineyard.Server.Sessions.Connection.Order.{
  Step, writes, writing_ends, pulls, run, used_follow, forgets,
}

-- How often a descriptor is among others.
unfoldable pub times : ℕ → List ℕ → ℕ
times fd [] = 0
times fd (x ∷ xs) = let rest = times fd xs in if x == fd then suc rest else rest

times-append : (fd : ℕ) (xs ys : List ℕ) → times fd (xs ++ ys) ≡ times fd xs + times fd ys
unfolding times
times-append fd [] ys = omega arith
times-append fd (x ∷ xs) ys = ground (arith, times-append fd xs ys)

-- A descriptor that none of the steps hands over.
abbrev named_in : ℕ → Callback → Bool
named_in fd none = false
named_in fd (some fds) = member fd fds

module _ {M : Type 0} where
  -- What counts as used has been sent once, and nothing else has been sent.
  abbrev SentOnce : ℕ → Connection M → Type 0
  SentOnce fd c = times fd c.sent_fds ≡ (if member fd c.used_fds then 1 else 0)

  send_fds-SentOnce :
      (fd : ℕ) (fds : List ℕ) (c : Connection M) → SentOnce fd c → SentOnce fd (send_fds fds c)
  unfolding send_fds times
  send_fds-SentOnce fd [] c h = h
  send_fds-SentOnce fd (x ∷ fds) c h =
      send_fds-SentOnce fd fds _
        (ground (arith, times-append fd c.sent_fds (x ∷ []), member-insert fd x c.used_fds))

  call_back-SentOnce :
      (fd : ℕ) (b : Callback) (c : Connection M) → SentOnce fd c → SentOnce fd (call_back b c)
  unfolding call_back
  call_back-SentOnce fd none c h = h
  call_back-SentOnce fd (some fds) c h = send_fds-SentOnce fd fds c h

  enqueue-SentOnce :
      (fd : ℕ) (b : Callback) (m : M) (c : Connection M)
      → SentOnce fd c
      → SentOnce fd (enqueue b m c)
  unfolding enqueue
  enqueue-SentOnce fd b m c h = elim (Bool-cases (is_empty c.write_msgs)) [
    | inl idle ↦ rw idle h
    | inr busy ↦ rw busy h
  ]

  after_write-SentOnce :
      (fd : ℕ) (ms : List M) (c : Connection M) → SentOnce fd c → SentOnce fd (after_write ms c)
  after_write-SentOnce fd [] c h = h
  after_write-SentOnce fd (m ∷ []) c h = call_back-SentOnce fd c.callback _ h
  after_write-SentOnce fd (m ∷ x ∷ rest) c h = h

  run-SentOnce :
      (fd : ℕ) (ss : List (Step M)) (c : Connection M) → SentOnce fd c → SentOnce fd (run ss c)
  unfolding run associate wrote
  run-SentOnce fd [] c h = h
  run-SentOnce fd (writes b m ∷ ss) c h = run-SentOnce fd ss _ (enqueue-SentOnce fd b m c h)
  run-SentOnce fd (writing_ends ∷ ss) c h =
      run-SentOnce fd ss _ (after_write-SentOnce fd c.write_msgs c h)
  run-SentOnce fd (pulls stream_id ∷ ss) c h = run-SentOnce fd ss _ h

  -- Where a reply with descriptors is written while no write is in progress, each of them has been sent,
  -- once over the whole connection, when no message waits any more, whatever has happened before and
  -- happens in between.
  pub descriptors_follow :
      (m : M) (fds : List ℕ) (before after : List (Step M))
      → let c = run before new_connection in
        is_empty c.write_msgs ≡ true
        → (run after (do_write_then m fds c)).write_msgs ≡ []
        → All (λ fd. times fd (run after (do_write_then m fds c)).sent_fds ≡ 1) fds
  unfolding times member
  descriptors_follow m fds before after idle over =
      let c = run before new_connection in
      All-mono fds
        (λ fd used.
          run-SentOnce fd after _
            (enqueue-SentOnce fd (some fds) m c (run-SentOnce fd before new_connection refl))
          ∙ ap (λ (b : Bool). if b then 1 else 0) used)
        (used_follow m fds c after idle over)

  -- A descriptor that no step hands over.
  abbrev pub unnamed : ℕ → List (Step M) → Bool
  unnamed fd [] = true
  unnamed fd (writes b m ∷ ss) = not (named_in fd b) && unnamed fd ss
  unnamed fd (writing_ends ∷ ss) = unnamed fd ss
  unnamed fd (pulls stream_id ∷ ss) = unnamed fd ss

  -- The descriptor has not been sent, and is not about to be.
  abbrev Unsent : ℕ → Connection M → Type 0
  Unsent fd c = (times fd c.sent_fds ≡ 0) × (named_in fd c.callback ≡ false)

  send_fds-unsent :
      (fd : ℕ) (fds : List ℕ) (c : Connection M)
      → times fd c.sent_fds ≡ 0
      → member fd fds ≡ false
      → times fd (send_fds fds c).sent_fds ≡ 0
  unfolding send_fds times member
  send_fds-unsent fd [] c h k = h
  send_fds-unsent fd (x ∷ fds) c h k =
      send_fds-unsent fd fds _ (ground (arith, times-append fd c.sent_fds (x ∷ []))) (ground arith)

  send_fds-callback : (fds : List ℕ) (c : Connection M) → (send_fds fds c).callback ≡ c.callback
  unfolding send_fds
  send_fds-callback [] c = refl
  send_fds-callback (fd ∷ fds) c = send_fds-callback fds _ ∙ ground arith

  call_back-Unsent :
      (fd : ℕ) (b : Callback) (c : Connection M)
      → named_in fd b ≡ false
      → Unsent fd c
      → Unsent fd (call_back b c)
  unfolding call_back
  call_back-Unsent fd none c k h = h
  call_back-Unsent fd (some fds) c k h =
      (send_fds-unsent fd fds c h.0 k, ap (named_in fd) (send_fds-callback fds c) ∙ h.1)

  enqueue-Unsent :
      (fd : ℕ) (b : Callback) (m : M) (c : Connection M)
      → named_in fd b ≡ false
      → Unsent fd c
      → Unsent fd (enqueue b m c)
  unfolding enqueue
  enqueue-Unsent fd b m c k h = elim (Bool-cases (is_empty c.write_msgs)) [
    | inl idle ↦ rw idle (h.0, k)
    | inr busy ↦ rw busy h
  ]

  after_write-Unsent :
      (fd : ℕ) (ms : List M) (c : Connection M) → Unsent fd c → Unsent fd (after_write ms c)
  after_write-Unsent fd [] c h = h
  after_write-Unsent fd (m ∷ []) c h = call_back-Unsent fd c.callback _ h.1 (h.0, refl)
  after_write-Unsent fd (m ∷ x ∷ rest) c h = h

  run-Unsent :
      (fd : ℕ) (ss : List (Step M)) (c : Connection M)
      → unnamed fd ss ≡ true
      → Unsent fd c
      → Unsent fd (run ss c)
  unfolding run associate wrote
  run-Unsent fd [] c k h = h
  run-Unsent fd (writes b m ∷ ss) c k h =
      run-Unsent fd ss _ (ground arith) (enqueue-Unsent fd b m c (ground arith) h)
  run-Unsent fd (writing_ends ∷ ss) c k h =
      run-Unsent fd ss _ k (after_write-Unsent fd c.write_msgs c h)
  run-Unsent fd (pulls stream_id ∷ ss) c k h = run-Unsent fd ss _ k h

  -- Where a reply with a descriptor is written while a write is in progress, and no other reply of the
  -- connection hands the descriptor over, it is never sent.
  pub descriptors_forgotten :
      (m : M) (fd : ℕ) (fds : List ℕ) (before after : List (Step M))
      → let c = run before new_connection in
        is_empty c.write_msgs ≡ false
        → unnamed fd before ≡ true
        → unnamed fd after ≡ true
        → times fd (run after (do_write_then m (fd ∷ fds) c)).sent_fds ≡ 0
  unfolding times
  descriptors_forgotten m fd fds before after busy past later =
      let c = run before new_connection in
      ap (λ d. times fd (run after d).sent_fds) (forgets m (fd ∷ fds) c busy)
      ∙ (run-Unsent fd after _ later (
          enqueue-Unsent fd none m c refl
            (run-Unsent fd before new_connection past (refl, refl)))).0
