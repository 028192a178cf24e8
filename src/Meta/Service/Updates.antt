-- ===== src/Meta/Service/Updates.antt =====
-- What a batch of edits does to the service.
use libvineyard.Base.{
  ℕ, zero, suc, ◌≤◌, ◌≡◌, refl, ◌∙◌, inl, inr, true, Option, none, some, List, [], ◌∷◌, ◌++◌,
  if◌then◌else◌, chain, Bool-cases, Option-cases, length, arith, subst,
}
use libvineyard.Common.Status.{Status, ok, is_ok}
use libvineyard.Meta.Service.{
  Op, TreeLibrary, Service, is_stale, put_val, del_val, apply_op, instance_update, update_one,
  meta_update, take_batch, watch_batches, daemon_watch, with_blob,
}

-- The edits that are not known.
abbrev pub fresh : ℕ → List Op → List Op
fresh rev [] = []
fresh rev (op ∷ ops) = let rest = fresh rev ops in if is_stale rev op then rest else op ∷ rest

take_batch-append :
    (index : ℕ) (ops : List Op)
    → let (batch, rest) = take_batch index ops in (batch ++ rest ≡ ops) × (length rest ≤ length ops)
unfolding take_batch
take_batch-append index [] = ground arith
take_batch-append index (op ∷ ops) = ground (arith, take_batch-append index ops)

-- The first edit of a batch is in it.
take_batch-less : (op : Op) (ops : List Op) → length (take_batch op.rev (op ∷ ops)).1 ≤ length ops
unfolding take_batch
take_batch-less op ops = ground (arith, take_batch-append op.rev ops)

module _ {l : TreeLibrary} where
  pub instance_update-keeps :
      (op : Op) (s t : Service l)
      → instance_update op s ≡ some t
      → (t.rev ≡ s.rev) × (t.dependencies ≡ s.dependencies)
  unfolding instance_update
  instance_update-keeps op s t e = ground arith

  pub del_val-keeps :
      (op : Op) (s t : Service l) (b : Option ℕ)
      → del_val op s ≡ some (t, b)
      → (t.rev ≡ s.rev) × (t.dependencies ≡ s.dependencies)
  unfolding del_val
  del_val-keeps op s t b e = ground arith

  apply_op-rev :
      (op : Op) (s t : Service l) (b : Option ℕ) → apply_op op s ≡ some (t, b) → t.rev ≡ s.rev
  unfolding apply_op put_val
  apply_op-rev op s t b e = ground (arith, del_val-keeps op s t b)

  -- Whatever edit it is, the revision stays.
  pub update_one-rev :
      (op : Op) (s t : Service l) (b : Option ℕ) → update_one op s ≡ some (t, b) → t.rev ≡ s.rev
  unfolding update_one
  update_one-rev op s t b e = grind (arith, instance_update-keeps, apply_op-rev)

  update_one-stale :
      (op : Op) (s : Service l) → is_stale s.rev op ≡ true → update_one op s ≡ some (s, none)
  unfolding update_one
  update_one-stale op s known = rw known

  -- Edits whose revision the server already has do nothing: a batch does what its other edits do.
  pub meta_update-fresh :
      (ops : List Op) (s : Service l) (blobs : List ℕ)
      → meta_update ops s blobs ≡ meta_update (fresh s.rev ops) s blobs
  unfolding meta_update
  meta_update-fresh [] s blobs = refl
  meta_update-fresh (op ∷ ops) s blobs = elim (Bool-cases (is_stale s.rev op)) [
    | inl known ↦ rw (known, update_one-stale op s known) (meta_update-fresh ops s blobs)
    | inr new ↦ elim (Option-cases (update_one op s)) [
      | inl e ↦ rw (new, e)
      | inr ((t, b), e) ↦
          rw (new, e)
            (subst
              (λ n.
                meta_update ops t (with_blob b blobs)
                ≡ meta_update (fresh n ops) t (with_blob b blobs))
              (update_one-rev op s t b e) (meta_update-fresh ops t (with_blob b blobs)))
    ]
  ]

  abbrev pub state_of {κ} : {B : Type κ} → Option (Service l × B) → Option (Service l)
  state_of none = none
  state_of (some r) = some r.0

  meta_update-blobs :
      (ops : List Op) (s : Service l) (b c : List ℕ)
      → state_of (meta_update ops s b) ≡ state_of (meta_update ops s c)
  unfolding meta_update
  meta_update-blobs [] s b c = refl
  meta_update-blobs (op ∷ ops) s b c = elim (Option-cases (update_one op s)) [
    | inl e ↦ rw e
    | inr (r, e) ↦ rw e (meta_update-blobs ops r.0 (with_blob r.1 b) (with_blob r.1 c))
  ]

  meta_update-append :
      (xs ys : List Op) (s : Service l) (b : List ℕ)
      → meta_update (xs ++ ys) s b ≡ chain (meta_update xs s b) (λ r. meta_update ys r.0 r.1)
  unfolding meta_update
  meta_update-append [] ys s b = refl
  meta_update-append (op ∷ xs) ys s b = elim (Option-cases (update_one op s)) [
    | inl e ↦ rw e
    | inr (r, e) ↦ rw e (meta_update-append xs ys r.0 (with_blob r.1 b))
  ]

  nothing_to_do : (s : Service l) → some s ≡ state_of (meta_update [] s [])
  unfolding meta_update
  nothing_to_do s = refl

  state_of-push :
      (o : Option (Service l × List (List ℕ))) (b : List ℕ)
      → state_of (chain o (λ q. some (q.0, b ∷ q.1))) ≡ state_of o
  state_of-push none b = refl
  state_of-push (some q) b = refl

  -- With fuel for every edit, the batches of the watch leave the service as the edits at once would.
  watch_batches-state :
      (fuel : ℕ) (ops : List Op) (s : Service l)
      → length ops ≤ fuel
      → state_of (watch_batches fuel ops s) ≡ state_of (meta_update ops s [])
  unfolding watch_batches
  watch_batches-state zero [] s h = nothing_to_do s
  watch_batches-state zero (op ∷ ops) s h = absurd (omega arith)
  watch_batches-state (suc fuel) [] s h = nothing_to_do s
  watch_batches-state (suc fuel) (op ∷ ops) s h =
      let batch = (take_batch op.rev (op ∷ ops)).0 in
      let rest = (take_batch op.rev (op ∷ ops)).1 in
      subst
        (λ all. state_of (watch_batches (suc fuel) (op ∷ ops) s) ≡ state_of (meta_update all s []))
        (take_batch-append op.rev (op ∷ ops)).0
        (rw (meta_update-append batch rest s []) (elim (Option-cases (meta_update batch s [])) [
          | inl e ↦ rw (e, watch_batches)
          | inr ((t, b), e) ↦
              rw (e, watch_batches)
                (state_of-push (watch_batches fuel rest t) b
                  ∙ (watch_batches-state fuel rest t (omega (arith, take_batch-less op ops))
                      ∙ meta_update-blobs rest t [] b))
        ]))

  drop_batches :
      (o : Option (Service l × List (List ℕ)))
      → chain {A = Status × Service l × List (List ℕ)}
          (chain o (λ r. some (ok, r.0, r.1)))
          (λ r. some r.1)
        ≡ state_of o
  drop_batches none = refl
  drop_batches (some r) = refl

  -- However the log of edits falls into revisions, the watch leaves the service as one update with all
  -- the edits would: the same tree, dependencies and instances, or the same exception. An error of
  -- the watch changes nothing.
  pub daemon_watch-state :
      (status : Status) (ops : List Op) (s : Service l)
      → chain (daemon_watch status ops s) (λ r. some r.1)
        ≡ (if is_ok status then state_of (meta_update ops s []) else some s)
  unfolding daemon_watch
  daemon_watch-state status ops s = elim (Bool-cases (is_ok status)) [
    | inl fine ↦ rw fine (
        drop_batches (watch_batches (length ops) ops s)
        ∙ watch_batches-state (length ops) ops s (omega arith))
    | inr error ↦ rw error
  ]
