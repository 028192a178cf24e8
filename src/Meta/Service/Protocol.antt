-- ===== src/Meta/Service/Protocol.antt =====
-- What every request does in the end, and which edits a deletion does not see.
use libvineyard.Base.{
  ℕ, ◌<◌, ◌≡◌, refl, ◌&&◌, Bool, true, false, Option, none, some, List, [], ◌∷◌, ◌==◌,
  if◌then◌else◌, chain, arith, is_empty,
}
use libvineyard.Common.Status.{Status, ok, is_ok}
use libvineyard.Meta.Dependencies.{Deletion, deletion_of}
use libvineyard.Meta.Service.{Op, TreeLibrary, Service, meta_update}
use libvineyard.Meta.Service.Updates.{fresh, meta_update-fresh}
use libvineyard.Meta.Service.Requests.{
  Event, locked, committed, released, finished, Answers, Ready, request_values, release, commit,
  request_to_persist, request_to_delete,
}

-- What a request does: it is refused the lock; or it has the lock, and its callback says no, so that it
-- gives up with that status; or the callback has nothing to do; or exactly the edits of the callback are
-- committed, and the answer to the commit is the end. It gives the lock back before it says how it has
-- ended, which it does once. `Says` is what the callback may answer, and `skips` whether the request
-- ends at once where there are no edits.
pub data IsOrderly (a : Answers) (skips : Bool) (Says : Status × List Op → Type 0)
    : List Event → Type 0 where
  is_refused : is_ok a.lock_status ≡ false → IsOrderly a skips Says (finished a.lock_status ∷ [])
  gives_up :
      (r : Status × List Op)
      → is_ok a.lock_status ≡ true
      → Says r
      → is_ok r.0 ≡ false
      → IsOrderly a skips Says (locked ∷ released ∷ finished r.0 ∷ [])
  has_nothing :
      (r : Status × List Op)
      → is_ok a.lock_status ≡ true
      → Says r
      → is_ok r.0 ≡ true
      → (skips && is_empty r.1) ≡ true
      → IsOrderly a skips Says (locked ∷ released ∷ finished ok ∷ [])
  commits :
      (r : Status × List Op)
      → is_ok a.lock_status ≡ true
      → Says r
      → is_ok r.0 ≡ true
      → (skips && is_empty r.1) ≡ false
      → IsOrderly a skips Says (locked ∷ committed r.1 ∷ released ∷ finished a.commit_status ∷ [])

-- The callback of a request to persist answers this for the tree that has the values of etcd.
abbrev pub SaysReady : (l : TreeLibrary) → Answers → Ready l → Service l → Status × List Op → Type 0
SaysReady l a ready s r =
    (t : Service l) × (request_values a s ≡ some t) × (ready a.values_status t.meta ≡ r)

-- That of a request to delete, for the objects that its deletion selects.
abbrev pub SaysChosen :
    (l : TreeLibrary)
    → Answers
    → (List ℕ → Ready l)
    → ℕ
    → List ℕ
    → Bool
    → Bool
    → Service l
    → Status × List Op
    → Type 0
SaysChosen l a choose fuel ids force deep s r =
    (t : Service l) × (d : Deletion) × (request_values a (record s { rev = a.lock_rev }) ≡ some t)
    × (deletion_of fuel force deep ids t.dependencies ≡ some d)
    × (choose d.delete_set a.values_status t.meta ≡ r)

module _ {l : TreeLibrary} where
  -- A request is orderly; it ends by an exception, or for want of fuel, only once it has the lock.
  abbrev pub Orderly :
      Answers → Bool → (Status × List Op → Type 0) → Option (Service l × List Event) → Type 0
  Orderly a skips Says none = is_ok a.lock_status ≡ true
  Orderly a skips Says (some r) = IsOrderly a skips Says r.1

  chain-Orderly {ℓ} :
      {A : Type ℓ} (a : Answers) (skips : Bool) (Says : Status × List Op → Type 0) (o : Option A)
      (f : A → Option (Service l × List Event))
      → is_ok a.lock_status ≡ true
      → ((x : A) → o ≡ some x → Orderly a skips Says (f x))
      → Orderly a skips Says (chain o f)
  chain-Orderly a skips Says none f has each = has
  chain-Orderly a skips Says (some x) f has each = each x refl

  if-Orderly :
      (a : Answers) (skips : Bool) (Says : Status × List Op → Type 0) (b : Bool)
      (x y : Option (Service l × List Event))
      → (b ≡ true → Orderly a skips Says x)
      → (b ≡ false → Orderly a skips Says y)
      → Orderly a skips Says (if b then x else y)
  if-Orderly a skips Says true x y h k = h refl
  if-Orderly a skips Says false x y h k = k refl

  commit-Orderly :
      (a : Answers) (skips : Bool) (Says : Status × List Op → Type 0) (r : Status × List Op)
      (s : Service l)
      → is_ok a.lock_status ≡ true
      → Says r
      → is_ok r.0 ≡ true
      → (skips && is_empty r.1) ≡ false
      → Orderly a skips Says (commit a r.1 s)
  unfolding commit
  commit-Orderly a skips Says r s h says good some_ =
      chain-Orderly a skips Says (meta_update r.1 s []) _ h (λ x e. commits r h says good some_)

  persist-Orderly :
      (a : Answers) (ready : Ready l) (s : Service l)
      → Orderly a true (SaysReady l a ready s) (request_to_persist a ready s)
  unfolding request_to_persist
  persist-Orderly a ready s =
      let Says = SaysReady l a ready s in
      if-Orderly a true Says (is_ok a.lock_status) _ _
        (λ has. chain-Orderly a true Says (request_values a s) _ has (λ t e.
          let r = ready a.values_status t.meta in
          if-Orderly a true Says (is_ok r.0) _ _
            (λ good.
              if-Orderly a true Says (is_empty r.1) _ _
                (λ bare. has_nothing r has (t, e, refl) good bare)
                (λ full. commit-Orderly a true Says r t has (t, e, refl) good full))
            (λ bad. gives_up r has (t, e, refl) bad)))
        (λ lacks. is_refused lacks)

  delete-Orderly :
      (a : Answers) (choose : List ℕ → Ready l) (fuel : ℕ) (ids : List ℕ) (force deep : Bool)
      (s : Service l)
      → Orderly a false
          (SaysChosen l a choose fuel ids force deep s)
          (request_to_delete a fuel ids force deep choose s)
  unfolding request_to_delete
  delete-Orderly a choose fuel ids force deep s =
      let Says = SaysChosen l a choose fuel ids force deep s in
      if-Orderly a false Says (is_ok a.lock_status) _ _
        (λ has.
          chain-Orderly a false Says (request_values a (record s { rev = a.lock_rev })) _ has
            (λ t e.
              chain-Orderly a false Says (deletion_of fuel force deep ids t.dependencies) _ has
                (λ d k.
                  let r = choose d.delete_set a.values_status t.meta in
                  if-Orderly a false Says (is_ok r.0) _ _
                    (λ good. commit-Orderly a false Says r _ has (t, d, e, k, refl) good refl)
                    (λ bad. gives_up r has (t, d, e, k, refl) bad))))
        (λ lacks. is_refused lacks)

  -- A request to persist or to delete only says so where the lock is refused. Otherwise, unless it ends
  -- by an exception or a deletion for want of fuel, it takes the lock and gives it back, once each and before it says how it has
  -- ended: where its callback refuses, with that status and no commit; where it does not, exactly the
  -- edits of the callback are committed, but for a request to persist without edits, and the answer to
  -- the commit is the end. The callback of a deletion is given the objects that the deletion selects.
  pub requests-Orderly :
      (a : Answers) (ready : Ready l) (choose : List ℕ → Ready l) (fuel : ℕ) (ids : List ℕ)
      (force deep : Bool) (s : Service l)
      → Orderly a true (SaysReady l a ready s) (request_to_persist a ready s)
        × Orderly a false
            (SaysChosen l a choose fuel ids force deep s)
            (request_to_delete a fuel ids force deep choose s)
  requests-Orderly a ready choose fuel ids force deep s =
      (persist-Orderly a ready s, delete-Orderly a choose fuel ids force deep s)

  -- A request to delete sets the revision to that of the lock before it asks for the values, so that
  -- the edits of other servers up to that revision, those that it has not seen included, count as
  -- known: it does what it would do without them.
  pub request_to_delete-fresh :
      (a : Answers) (choose : List ℕ → Ready l) (fuel : ℕ) (ids : List ℕ) (force deep : Bool)
      (s : Service l)
      → 0 < a.lock_rev
      → request_to_delete a fuel ids force deep choose s
        ≡ request_to_delete
            (record a { values = fresh a.lock_rev a.values })
            fuel
            ids
            force
            deep
            choose
            s
  unfolding request_to_delete request_values commit release
  request_to_delete-fresh a choose fuel ids force deep s h =
      let not_first : (a.lock_rev == 0) ≡ false = ground arith in
      rw (not_first, meta_update-fresh a.values (record s { rev = a.lock_rev }) [])
