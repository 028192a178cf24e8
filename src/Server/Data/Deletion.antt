-- ===== src/Server/Data/Deletion.antt =====
-- `DelData` and `DeleteAllAt` of src/server/server/vineyard_server.cc: what they commit to etcd.
use libvineyard.Base.{
  ℕ, ◌≡◌, refl, ◌⊎◌, Bool, true, false, Option, none, some, List, [], ◌∷◌, if◌then◌else◌, chain,
  All, Bool-cases, Option-cases, inl, inr, arith,
}
use libvineyard.Common.Ptree.{PtreeLibrary}
use libvineyard.Common.Status.{Status, is_ok, meta_tree_subtree_not_exists}
use libvineyard.Meta.Dependencies.{Deletion, deletion_of}
use libvineyard.Meta.Service.{Op, TreeLibrary, Service, meta_update}
use libvineyard.Meta.Service.Requests.{
  Event, locked, committed, released, finished, Answers, request_values, commit, request_to_delete,
}
use libvineyard.Common.Uuid.{object_id_to_string}
use libvineyard.Meta.Tree.{found, failed, data_prefix}
use libvineyard.Meta.Tree.Deleting.{del_all_ops, del_data_ops}
use libvineyard.Meta.Tree.Deleting.Touched.{Deletes, IsGone, del_all_ops-Deletes}
use libvineyard.Server.Startup.{Server, ensure_ready}
use libvineyard.Server.Data.{caught, del_ready, del_data}

abbrev pub Holds : (List Op → Type 0) → Event → Type 0
Holds Q locked = Unit
Holds Q (committed ops) = Q ops
Holds Q released = Unit
Holds Q (finished status) = Unit

module _ {l : TreeLibrary} where
  -- What a request commits, if it does not end by an exception.
  abbrev pub Commits : (List Op → Type 0) → Option (Service l × List Event) → Type 0
  Commits Q none = Unit
  Commits Q (some r) = All (Holds Q) r.1

  chain-Commits {ℓ} :
      {A : Type ℓ} (Q : List Op → Type 0) (o : Option A) (f : A → Option (Service l × List Event))
      → ((x : A) → o ≡ some x → Commits Q (f x))
      → Commits Q (chain o f)
  chain-Commits Q none f each = tt
  chain-Commits Q (some x) f each = each x refl

  if-Commits :
      (Q : List Op → Type 0) (b : Bool) (x y : Option (Service l × List Event))
      → (b ≡ true → Commits Q x)
      → Commits Q y
      → Commits Q (if b then x else y)
  if-Commits Q true x y h k = h refl
  if-Commits Q false x y h k = k

  commit-Commits :
      (Q : List Op → Type 0) (a : Answers) (ops : List Op) (s : Service l)
      → Q ops
      → Commits Q (commit a ops s)
  unfolding commit
  commit-Commits Q a ops s q =
      chain-Commits Q (meta_update ops s []) _ (λ r e. (tt, (q, (tt, (tt, tt)))))

-- The edits delete the objects: all keys of all of them, which are there, and no other keys.
abbrev pub DeletesAll : (l : PtreeLibrary) → l.Ptree → List ℕ → List Op → Type 0
DeletesAll l meta ids ops = All (Deletes l meta ids) ops × All (IsGone l meta ops) ids

-- Either all of the objects are there, or one is not.
del_all_ops-cases :
    (l : PtreeLibrary) (meta : l.Ptree) (ids : List ℕ)
    → ((ops : List Op) × (del_all_ops l meta ids ≡ found ops))
      ⊎ (del_all_ops l meta ids ≡ failed meta_tree_subtree_not_exists)
unfolding del_all_ops del_data_ops
del_all_ops-cases l meta [] = inl ([], refl)
del_all_ops-cases l meta (id ∷ ids) =
    elim (Option-cases (chain (l.child data_prefix meta) (l.child (object_id_to_string id)))) [
      | inl missing ↦ inr (rw missing refl)
      | inr (node, there) ↦ elim (del_all_ops-cases l meta ids) [
        | inl (ops, rest) ↦ inl (rw (there, rest) (_, refl))
        | inr missing ↦ inr (rw (there, missing) refl)
      ]
    ]

del_ready-Deletes :
    (l : PtreeLibrary) (ids : List ℕ) (status : Status) (meta : l.Ptree)
    → is_ok (del_ready l ids status meta).0 ≡ true
    → DeletesAll l meta ids (del_ready l ids status meta).1
unfolding del_ready caught
del_ready-Deletes l ids status meta good = elim (Bool-cases (is_ok status)) [
  | inr bad ↦ absurd (ground arith)
  | inl fine ↦ elim (del_all_ops-cases l meta ids) [
    | inl (ops, e) ↦ rw (fine, e) (del_all_ops-Deletes l meta ids ops e)
    | inr e ↦ absurd (ground arith)
  ]
]

module _ (l : PtreeLibrary) {s : TreeLibrary} (view : s.Tree → l.Ptree) where
  -- The edits of a deletion, which is that of the dependencies once the values of etcd are known.
  abbrev pub FromDeletion : Answers → ℕ → List ℕ → Bool → Bool → Service s → List Op → Type 0
  FromDeletion a fuel ids force deep t ops =
      (u : Service s) × (d : Deletion) × (request_values a (record t { rev = a.lock_rev }) ≡ some u)
      × (deletion_of fuel force deep ids u.dependencies ≡ some d)
      × DeletesAll l (view u.meta) d.delete_set ops

  -- What `DelData` commits are deletions of the nodes, and of the fields that they have, of the objects
  -- that the deletion of its ids selects in the dependencies and the tree, as they are once etcd has been
  -- read, and all of these; each of the objects is there.
  pub del_data-FromDeletion :
      (server : Server) (a : Answers) (fuel : ℕ) (ids : List ℕ) (force deep : Bool) (t : Service s)
      → Commits
          (FromDeletion a fuel ids force deep t)
          (del_data l view server a fuel ids force deep t)
  unfolding del_data request_to_delete
  del_data-FromDeletion server a fuel ids force deep t =
      let Q = FromDeletion a fuel ids force deep t in
      if-Commits Q (ensure_ready server) _ _
        (λ up.
          if-Commits Q (is_ok a.lock_status) _ _
            (λ has. chain-Commits Q (request_values a (record t { rev = a.lock_rev })) _ (λ u read.
              chain-Commits Q (deletion_of fuel force deep ids u.dependencies) _ (λ d selected.
                let ready = del_ready l d.delete_set a.values_status (view u.meta) in
                if-Commits Q (is_ok ready.0) _ _
                  (λ good. commit-Commits Q a ready.1 _ (
                    u,
                    d,
                    read,
                    selected,
                    del_ready-Deletes l d.delete_set a.values_status (view u.meta) good,
                  ))
                  (tt, (tt, (tt, tt))))))
            (tt, tt))
        (tt, tt)
