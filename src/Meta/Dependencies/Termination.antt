-- ===== src/Meta/Dependencies/Termination.antt =====
-- The recursion of a deletion under the measure, where owners have lower ranks than members.
use libvineyard.Base.{
  ℕ, zero, suc, ◌+◌, ◌≤◌, ◌<◌, Bool, true, false, ◌||◌, Option, List, [], ◌∷◌, ◌≡◌, refl, inl, inr,
  List-cases, Bool-cases, arith,
}
use libvineyard.Base.Multimap.{
  Multimap, member, insert, equal_range, erase_pair, has_pair, member-insert, has_pair-erase_pair,
}
use libvineyard.Meta.Dependencies.{
  Deletion, deleteable, release_members, delete_owners, forget, done, marked, traverse_to_delete,
  delete_object, owners_to_delete,
}
use libvineyard.Meta.Dependencies.Advance.{
  IsSafe, Advance, Advances, visit_all-Advance, marked-IsSafe, release_members-Advance, clash,
}
use libvineyard.Meta.Dependencies.Visits.{traverse_to_delete-Advance}
use libvineyard.Meta.Dependencies.Weight.{
  left, left-insert, weight_less, Returns, Ranked, Ranked-Advance, weight, weight-Advance, Ends,
  visit_all-Returns, release_members-Returns,
}

module _ (before : Multimap) (objects : List ℕ) (rank : ℕ → ℕ) (height : ℕ)
    (low : (x : ℕ) → rank x < height) where
  unlinked-Advance :
      (stack : List ℕ) (c x : ℕ) (s : Deletion)
      → IsSafe before stack s
      → Advance before stack s (record s { subobjects = erase_pair c x s.subobjects })
  unlinked-Advance stack c x s w =
      let narrower : (a v : ℕ)
          → has_pair a v (erase_pair c x s.subobjects) ≡ true
          → has_pair a v s.subobjects ≡ true =
        λ a v k. ground (arith, has_pair-erase_pair a v c x s.subobjects) in
      record {
        safe = record {
          accounted = w.accounted;
          cleared = w.cleared;
          emptied = λ a v k l. w.emptied a v k (narrower a v l);
          stacked = w.stacked;
        };
        grows = λ a h. h;
        shrinks = λ a o h. h;
        narrows = narrower;
      }

  delete_owners-Returns :
      (stack : List ℕ) (fuel : ℕ) (visit : ℕ → Deletion → Option Deletion) (x : ℕ)
      → Advances before stack visit
      → Ends before objects rank height low stack fuel visit
      → (cs : List ℕ) (s : Deletion) → IsSafe before stack s
      → Ranked before objects rank height low s
      → ((c : ℕ) → member c cs ≡ true → member c objects ≡ true)
      → weight before objects rank height low s + height ≤ fuel
      → Returns (delete_owners visit x cs s)
  unfolding delete_owners member
  delete_owners-Returns stack fuel visit x each ends [] s w r known fits = (s, refl)
  delete_owners-Returns stack fuel visit x each ends (c ∷ cs) s w r known fits =
      let u = record s { subobjects = erase_pair c x s.subobjects } in
      let a = unlinked-Advance stack c x s w in
      let (t, e) =
        ends c u a.safe (Ranked-Advance before objects rank height low a r) (known c (ground arith))
          (omega (arith, weight-Advance before objects rank height low a, low c)) in
      let b = each c u t e a.safe in
      rw (e, delete_owners)
        (delete_owners-Returns stack fuel visit x each ends cs t b.safe
          (Ranked-Advance before objects rank height low b
            (Ranked-Advance before objects rank height low a r))
          (λ y h. known y (ground arith))
          (omega (
            arith,
            weight-Advance before objects rank height low a,
            weight-Advance before objects rank height low b,
          )))

  no_range : (k : ℕ) (m : Multimap) → ((v : ℕ) → has_pair k v m ≡ true → ⊥) → equal_range k m ≡ []
  unfolding has_pair member
  no_range k m none_there = elim (List-cases (equal_range k m)) [
    | inl e ↦ e
    | inr (v, vs, e) ↦ absurd (none_there v (rw e (ground arith)))
  ]

  marked-weight :
      (x : ℕ) (s : Deletion)
      → member x objects ≡ true
      → member x s.delete_set ≡ false
      → weight before objects rank height low (marked x s) + height
        ≤ weight before objects rank height low s
  unfolding weight
  marked-weight x s here alive =
      weight_less (left objects (insert x s.delete_set)) (left objects s.delete_set) height
        (left-insert objects s.delete_set x here alive)

  marked-Ranked :
      (x : ℕ) (s : Deletion)
      → Ranked before objects rank height low s
      → Ranked before objects rank height low (marked x s)
  marked-Ranked x s r = record {
    ranked = r.ranked;
    owner_known = r.owner_known;
    member_known = r.member_known;
  }

  marked_self : (x : ℕ) (s : Deletion) → member x (marked x s).delete_set ≡ true
  marked_self x s = ground (arith, member-insert x x s.delete_set)

  -- The members of a deleted object can be released: there is fuel, or there are none.
  members-Returns :
      (stack : List ℕ) (fuel : ℕ) (visit : ℕ → Deletion → Option Deletion) (deep : Bool) (x : ℕ)
      → Advances before (x ∷ stack) visit
      → Ends before objects rank height low (x ∷ stack) fuel visit
      → (s : Deletion) → IsSafe before stack s
      → Ranked before objects rank height low s
      → member x objects ≡ true
      → member x stack ≡ false
      → weight before objects rank height low s ≤ fuel
      → Returns (release_members visit deep x (equal_range x s.subobjects) (marked x s))
  unfolding weight has_pair release_members
  members-Returns stack fuel visit deep x each ends s w r here free fits =
      elim (Bool-cases (member x s.delete_set)) [
        | inr alive ↦
            release_members-Returns before objects rank height low (x ∷ stack) fuel visit deep x
              each ends (equal_range x s.subobjects) (marked x s) (marked-IsSafe before stack x s w)
              (marked-Ranked x s r) (marked_self x s) (λ c h. r.member_known x c h)
              (omega (arith, marked-weight x s here alive))
        | inl gone ↦
            let none_left = no_range x s.subobjects (λ v h. clash (w.emptied x v gone h) free) in
            rw (none_left, release_members) (marked x s, refl)
      ]

  -- So can its owners be visited.
  owners-Returns :
      (stack : List ℕ) (fuel : ℕ) (visit : ℕ → Deletion → Option Deletion) (x : ℕ)
      → Advances before (x ∷ stack) visit
      → Ends before objects rank height low (x ∷ stack) fuel visit
      → (s u : Deletion) → IsSafe before stack s
      → Ranked before objects rank height low s
      → Advance before (x ∷ stack) (marked x s) u
      → member x objects ≡ true
      → member x stack ≡ false
      → weight before objects rank height low s ≤ fuel
      → Returns (delete_owners visit x (equal_range x u.supobjects) u)
  unfolding has_pair delete_owners
  owners-Returns stack fuel visit x each ends s u w r a here free fits =
      elim (Bool-cases (member x s.delete_set)) [
        | inr alive ↦
            let q = Ranked-Advance before objects rank height low a (marked-Ranked x s r) in
            delete_owners-Returns (x ∷ stack) fuel visit x each ends (equal_range x u.supobjects) u
              a.safe q (λ c h. q.owner_known x c h)
              (omega (
                arith,
                marked-weight x s here alive,
                weight-Advance before objects rank height low a,
              ))
        | inl gone ↦
            let none_left =
              no_range x u.supobjects (λ v h. clash (w.cleared x v gone (a.shrinks x v h)) free) in
            rw (none_left, delete_owners) (u, refl)
      ]

  delete_object-Returns :
      (stack : List ℕ) (fuel : ℕ) (down up : ℕ → Deletion → Option Deletion) (force deep : Bool)
      (x : ℕ)
      → Advances before (x ∷ stack) down
      → Advances before (x ∷ stack) up
      → Ends before objects rank height low (x ∷ stack) fuel down
      → Ends before objects rank height low (x ∷ stack) fuel up
      → (s : Deletion) → IsSafe before stack s
      → Ranked before objects rank height low s
      → member x objects ≡ true
      → member x stack ≡ false
      → weight before objects rank height low s ≤ fuel
      → Returns (delete_object down up force deep x s)
  unfolding delete_object
  delete_object-Returns stack fuel down up true deep x f g h i s w r here free fits =
      let (u, e) = members-Returns stack fuel down deep x f h s w r here free fits in
      let a =
        release_members-Advance before (x ∷ stack) down deep x f (equal_range x s.subobjects)
          (marked x s) u e (marked_self x s) (marked-IsSafe before stack x s w) in
      let (v, k) = owners-Returns stack fuel up x g i s u w r a here free fits in
      rw (e, k, delete_object) (done x (forget x v), refl)
  delete_object-Returns stack fuel down up false deep x f g h i s w r here free fits =
      let (u, e) = members-Returns stack fuel down deep x f h s w r here free fits in
      rw (e, delete_object) (done x (forget x u), refl)

  owners_known :
      (xs initial : List ℕ) (y : ℕ)
      → member y (owners_to_delete xs initial) ≡ true
      → member y xs ≡ true
  unfolding owners_to_delete member
  owners_known [] initial y h = h
  owners_known (x ∷ xs) initial y h =
      ground (arith, owners_known xs initial y, member-insert y x (owners_to_delete xs initial))

  pub traverse_to_delete-Returns :
      (fuel : ℕ) (stack : List ℕ) (force deep : Bool)
      → Ends before objects rank height low stack fuel (traverse_to_delete fuel force deep)
  unfolding traverse_to_delete has_pair
  traverse_to_delete-Returns zero stack force deep x s w r here fits = absurd (omega arith)
  traverse_to_delete-Returns (suc fuel) stack force deep x s w r here fits =
      elim (Bool-cases (member x s.delete_set)) [
        | inl gone ↦ rw (gone, traverse_to_delete) (s, refl)
        | inr alive ↦
            let visit = traverse_to_delete fuel force deep in
            let owners = owners_to_delete (equal_range x s.supobjects) s.initial_delete_set in
            let each : Advances before stack visit =
              λ y p q i v. (traverse_to_delete-Advance before fuel stack force deep y p q i v).0 in
            let (u, e) =
              visit_all-Returns before objects rank height low stack fuel visit each
                (traverse_to_delete-Returns fuel stack force deep) owners s w r
                (λ y h.
                  let owned = owners_known (equal_range x s.supobjects) s.initial_delete_set y h in
                  (r.owner_known x y owned, omega (arith, r.ranked x y owned))) in
            let a = visit_all-Advance before stack visit each owners s u e w in
            elim (Bool-cases (force || deleteable x u.supobjects)) [
              | inr kept ↦ rw (alive, e, kept, traverse_to_delete) (done x u, refl)
              | inl can ↦
                  rw (alive, e, can, traverse_to_delete)
                    (delete_object-Returns stack fuel (traverse_to_delete fuel false true)
                      (traverse_to_delete fuel true false) force deep x
                      (λ y p q i v.
                        (traverse_to_delete-Advance before fuel (x ∷ stack) false true y p q i v).0)
                      (λ y p q i v.
                        (traverse_to_delete-Advance before fuel (x ∷ stack) true false y p q i v).0)
                      (traverse_to_delete-Returns fuel (x ∷ stack) false true)
                      (traverse_to_delete-Returns fuel (x ∷ stack) true false) u a.safe
                      (Ranked-Advance before objects rank height low a r) here
                      (ground (arith, w.stacked x))
                      (omega (arith, weight-Advance before objects rank height low a)))
            ]
      ]
