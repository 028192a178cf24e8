-- ===== src/Meta/Dependencies/Visits.antt =====
-- The visit of one object, with all that it leads to.
use libvineyard.Base.{
  ℕ, zero, suc, Bool, true, false, ◌||◌, Option, none, some, List, ◌∷◌, ◌==◌, if◌then◌else◌, ◌≡◌,
  refl, sym, inl, inr, List-cases, Bool-cases, subst, chain_inverse, some-injective, branch_inverse,
  ==_iff, arith,
}
use libvineyard.Base.Multimap.{
  Multimap, member, equal_range, has_pair, member-insert, has_pair-erase_key,
}
use libvineyard.Meta.Dependencies.{
  Deletion, deleteable, visit_all, release_members, delete_owners, forget, done, marked,
  traverse_to_delete, delete_object, owners_to_delete,
}
use libvineyard.Meta.Dependencies.Advance.{
  IsSafe, Advance, Advance-trans, Advance-start, Advances, Deletes, visit_all-Advance,
  marked-IsSafe, release_members-Advance, delete_owners-Advance, clash,
}

module _ (before : Multimap) where
  forget-IsSafe :
      (stack : List ℕ) (x : ℕ) (s : Deletion)
      → IsSafe before (x ∷ stack) s
      → ((o : ℕ) → has_pair x o s.supobjects ≡ true → member o s.delete_set ≡ true)
      → IsSafe before stack (done x (forget x s))
  unfolding member
  forget-IsSafe stack x s w owned = record {
    accounted = λ c o h. elim (w.accounted c o h) [
      | inl k ↦ elim (Bool-cases (x == c)) [
        | inl same ↦
            inr (
              owned o (subst (λ d. has_pair d o s.supobjects ≡ true) (sym ((==_iff x c).0 same)) k))
        | inr other ↦ inl (ground (arith, has_pair-erase_key c o x s.supobjects))
      ]
      | inr k ↦ inr k
    ];
    cleared = λ c o h k. ground (arith, w.cleared c o h, has_pair-erase_key c o x s.supobjects);
    emptied = λ c v h k. ground (arith, w.emptied c v h, has_pair-erase_key c v x s.subobjects);
    stacked = λ c h. ground (arith, w.stacked c);
  }

  -- An object without owners has none.
  deleteable-has_pair : (x o : ℕ) (m : Multimap) → deleteable x m ≡ true → has_pair x o m ≡ false
  unfolding deleteable has_pair member
  deleteable-has_pair x o m h = elim (List-cases (equal_range x m)) [
    | inl e ↦ rw e
    | inr (y, ys, e) ↦ absurd (ground arith)
  ]

  marked-member :
      (c x : ℕ) (s : Deletion)
      → member c s.delete_set ≡ true
      → member c (marked x s).delete_set ≡ true
  marked-member c x s h = ground (arith, member-insert c x s.delete_set)

  marked_self : (x : ℕ) (s : Deletion) → member x (marked x s).delete_set ≡ true
  marked_self x s = ground (arith, member-insert x x s.delete_set)

  -- The end of a deletion whose object has no owner left but deleted ones.
  finish :
      (stack : List ℕ) (x : ℕ) (s v : Deletion)
      → Advance before (x ∷ stack) (marked x s) v
      → ((o : ℕ) → has_pair x o v.supobjects ≡ true → member o v.delete_set ≡ true)
      → Advance before stack s (done x (forget x v)) × (member x v.delete_set ≡ true)
  finish stack x s v a owned = (
    record {
      safe = forget-IsSafe stack x v a.safe owned;
      grows = λ c h. a.grows c (marked-member c x s h);
      shrinks = λ c o h. a.shrinks c o (ground (arith, has_pair-erase_key c o x v.supobjects));
      narrows = λ c o h. a.narrows c o (ground (arith, has_pair-erase_key c o x v.subobjects));
    },
    a.grows x (marked_self x s),
  )

  pub delete_object-Advance :
      (stack : List ℕ) (down up : ℕ → Deletion → Option Deletion) (force deep : Bool) (x : ℕ)
      → Advances before (x ∷ stack) down
      → Advances before (x ∷ stack) up
      → Deletes before (x ∷ stack) up
      → (s t : Deletion) → delete_object down up force deep x s ≡ some t
      → (force || deleteable x s.supobjects) ≡ true
      → IsSafe before stack s
      → Advance before stack s t × (member x t.delete_set ≡ true)
  unfolding delete_object has_pair
  delete_object-Advance stack down up true deep x f g h s t e can w =
      let (u, first, rest) =
        chain_inverse (release_members down deep x (equal_range x s.subobjects) (marked x s))
          (λ u. elim (delete_owners up x (equal_range x u.supobjects) u) [
            | none ↦ none
            | some v ↦ some (done x (forget x v))
          ])
          t e in
      let a =
        release_members-Advance before (x ∷ stack) down deep x f (equal_range x s.subobjects)
          (marked x s) u first (marked_self x s) (marked-IsSafe before stack x s w) in
      let (v, second, last) =
        chain_inverse (delete_owners up x (equal_range x u.supobjects) u)
          (λ v. some (done x (forget x v))) t rest in
      let (b, all) =
        delete_owners-Advance before (x ∷ stack) up x g h (equal_range x u.supobjects) u v second
          a.safe in
      subst (λ r. Advance before stack s r × (member x r.delete_set ≡ true)) (some-injective last)
        (finish stack x s v (Advance-trans before a b) (λ o k. all o (b.shrinks x o k)))
  delete_object-Advance stack down up false deep x f g h s t e can w =
      let (u, first, last) =
        chain_inverse (release_members down deep x (equal_range x s.subobjects) (marked x s))
          (λ u. some (done x (forget x u))) t e in
      let a =
        release_members-Advance before (x ∷ stack) down deep x f (equal_range x s.subobjects)
          (marked x s) u first (marked_self x s) (marked-IsSafe before stack x s w) in
      subst (λ r. Advance before stack s r × (member x r.delete_set ≡ true)) (some-injective last)
        (finish stack x s u a
          (λ o k. absurd (clash (a.shrinks x o k) (deleteable-has_pair x o s.supobjects can))))

  pub traverse_to_delete-Advance :
      (fuel : ℕ) (stack : List ℕ) (force deep : Bool) (x : ℕ) (s t : Deletion)
      → traverse_to_delete fuel force deep x s ≡ some t
      → IsSafe before stack s
      → Advance before stack s t × (force ≡ true → member x t.delete_set ≡ true)
  unfolding traverse_to_delete
  traverse_to_delete-Advance zero stack force deep x s t e w = absurd cc
  traverse_to_delete-Advance (suc fuel) stack force deep x s t e w =
      let visit = traverse_to_delete fuel force deep in
      let owners = owners_to_delete (equal_range x s.supobjects) s.initial_delete_set in
      let down = traverse_to_delete fuel false true in
      let up = traverse_to_delete fuel true false in
      let after : Deletion → Option Deletion = λ u.
        if force || deleteable x u.supobjects
        then delete_object down up force deep x u
        else some (done x u) in
      elim (branch_inverse (member x s.delete_set) (some s)
        (elim (visit_all visit owners s) [ none ↦ none | some u ↦ after u ]) (some t) e) [
          | inl (h, k) ↦
              subst (λ r. Advance before stack s r × (force ≡ true → member x r.delete_set ≡ true))
                (some-injective k) (Advance-start before s w, (λ _. h))
          | inr (h, k) ↦
              let (u, first, rest) = chain_inverse (visit_all visit owners s) after t k in
              let a =
                visit_all-Advance before stack visit
                  (λ y p q i v. (traverse_to_delete-Advance fuel stack force deep y p q i v).0)
                  owners s u first w in
              elim (branch_inverse (force || deleteable x u.supobjects)
                (delete_object down up force deep x u) (some (done x u)) (some t) rest) [
                  | inl (can, l) ↦
                      let (b, gone) =
                        delete_object-Advance stack down up force deep x
                          (λ y p q i v.
                            (traverse_to_delete-Advance fuel (x ∷ stack) false true y p q i v).0)
                          (λ y p q i v.
                            (traverse_to_delete-Advance fuel (x ∷ stack) true false y p q i v).0)
                          (λ y p q i v.
                            (traverse_to_delete-Advance fuel (x ∷ stack) true false y p q i v).1
                              refl)
                          u t l can a.safe in
                      (Advance-trans before a b, (λ _. gone))
                  | inr (kept, l) ↦
                      subst
                        (λ r.
                          Advance before stack s r × (force ≡ true → member x r.delete_set ≡ true))
                        (some-injective l)
                        (
                          record {
                            safe = record {
                              accounted = a.safe.accounted;
                              cleared = a.safe.cleared;
                              emptied = a.safe.emptied;
                              stacked = a.safe.stacked;
                            };
                            grows = a.grows;
                            shrinks = a.shrinks;
                            narrows = a.narrows;
                          },
                          (λ f. absurd (ground arith)),
                        )
                ]
        ]
