-- ===== src/Server/Deferred.antt =====
-- `DeferredReq` and `ProcessDeferred`: requests that wait until the metadata satisfies them.
use libvineyard.Base.{
  ℕ, Bool, not, ◌&&◌, List, [], ◌∷◌, if◌then◌else◌, map, ◌≡◌, refl, ap, Bool-cases, inl, inr,
}

-- A deferred request: the connection that it came by, its test, and the reply that it then sends.
pub record DeferredReq {ℓ κ} (Tree : Type ℓ) (Reply : Type κ) : Type (ℓ ⊔ κ) where
  pub connection : ℕ
  pub test_fn : Tree → Bool
  pub call_fn : Tree → Reply

module _ {ℓ κ} {Tree : Type ℓ} {Reply : Type κ} (alive : ℕ → Bool) (meta : Tree) where
  -- The requests that still wait, and the replies that are sent. A request whose connection is gone
  -- is dropped.
  unfoldable pub process_deferred :
      List (DeferredReq Tree Reply) → List (DeferredReq Tree Reply) × List Reply
  process_deferred [] = ([], [])
  process_deferred (d ∷ ds) =
      let (kept, sent) = process_deferred ds in
      if not (alive d.connection)
      then (kept, sent)
      else if d.test_fn meta
      then (kept, d.call_fn meta ∷ sent)
      else (d ∷ kept, sent)

  abbrev pub select :
      (DeferredReq Tree Reply → Bool)
      → List (DeferredReq Tree Reply)
      → List (DeferredReq Tree Reply)
  select p [] = []
  select p (d ∷ ds) = let rest = select p ds in if p d then d ∷ rest else rest

  process_deferred-select :
      (ds : List (DeferredReq Tree Reply))
      → process_deferred ds ≡ (
        select (λ d. alive d.connection && not (d.test_fn meta)) ds,
        map (λ d. d.call_fn meta) (select (λ d. alive d.connection && d.test_fn meta) ds),
      )
  unfolding process_deferred
  process_deferred-select [] = refl
  process_deferred-select (d ∷ ds) = elim (Bool-cases (alive d.connection)) [
    | inr gone ↦ rw (gone, process_deferred-select ds)
    | inl here ↦ elim (Bool-cases (d.test_fn meta)) [
      | inl holds ↦ rw (here, holds, process_deferred-select ds)
      | inr fails ↦ rw (here, fails, process_deferred-select ds)
    ]
  ]

  kept_again :
      (ds : List (DeferredReq Tree Reply))
      → process_deferred (process_deferred ds).0 ≡ ((process_deferred ds).0, [])
  unfolding process_deferred
  kept_again [] = refl
  kept_again (d ∷ ds) = elim (Bool-cases (alive d.connection)) [
    | inr gone ↦ rw gone (kept_again ds)
    | inl here ↦ elim (Bool-cases (d.test_fn meta)) [
      | inl holds ↦ rw (here, holds) (kept_again ds)
      | inr fails ↦ rw (here, fails) (rw (kept_again ds, here, fails))
    ]
  ]

  -- A pass over the deferred requests answers, in their order, just those whose connection is alive
  -- and whose test holds, keeps those whose connection is alive and whose test does not hold, and
  -- drops the others. A second pass answers none and keeps them all.
  pub process_deferred_lem :
      (ds : List (DeferredReq Tree Reply))
      → let (kept, sent) = process_deferred ds in
        (kept ≡ select (λ d. alive d.connection && not (d.test_fn meta)) ds)
        × (sent ≡ map (λ d. d.call_fn meta) (select (λ d. alive d.connection && d.test_fn meta) ds))
        × (process_deferred kept ≡ (kept, []))
  process_deferred_lem ds =
      let e = process_deferred-select ds in (ap (λ r. r.0) e, ap (λ r. r.1) e, kept_again ds)
