-- ===== src/Meta/Dependencies/Advance.antt =====
-- What the parts of a deletion keep of the owners and the members of objects.
use libvineyard.Base.{
  ℕ, Bool, true, false, Option, some, List, [], ◌∷◌, ◌≡◌, ◌⊎◌, inl, inr, subst, chain_inverse,
  some-injective, arith,
}
use libvineyard.Base.Multimap.{
  Multimap, member, erase_pair, has_pair, member-insert, has_pair-erase_pair,
}
use libvineyard.Meta.Dependencies.{Deletion, visit_all, release_members, delete_owners, marked}

-- Every owner that an object had is still its owner or is deleted, and of the deleted objects only
-- those on the stack, whose deletion is under way, still have owners or members.
pub record IsSafe (before : Multimap) (stack : List ℕ) (s : Deletion) : Type 0 where
  pub accounted :
      (c o : ℕ)
      → has_pair c o before ≡ true
      → (has_pair c o s.supobjects ≡ true) ⊎ (member o s.delete_set ≡ true)
  pub cleared :
      (c o : ℕ)
      → member c s.delete_set ≡ true
      → has_pair c o s.supobjects ≡ true
      → member c stack ≡ true
  pub emptied :
      (c v : ℕ)
      → member c s.delete_set ≡ true
      → has_pair c v s.subobjects ≡ true
      → member c stack ≡ true
  pub stacked : (c : ℕ) → member c stack ≡ true → member c s.delete_set ≡ true

-- A part of the deletion from one state to another.
pub record Advance (before : Multimap) (stack : List ℕ) (s t : Deletion) : Type 0 where
  pub safe : IsSafe before stack t
  pub grows : (c : ℕ) → member c s.delete_set ≡ true → member c t.delete_set ≡ true
  pub shrinks : (c o : ℕ) → has_pair c o t.supobjects ≡ true → has_pair c o s.supobjects ≡ true
  pub narrows : (c v : ℕ) → has_pair c v t.subobjects ≡ true → has_pair c v s.subobjects ≡ true

pub clash : {b : Bool} → b ≡ true → b ≡ false → ⊥
clash h k = cc

module _ (before : Multimap) where
  pub Advance-trans :
      {stack : List ℕ} {s t u : Deletion}
      → Advance before stack s t
      → Advance before stack t u
      → Advance before stack s u
  Advance-trans a b = record {
    safe = b.safe;
    grows = λ c h. b.grows c (a.grows c h);
    shrinks = λ c o h. a.shrinks c o (b.shrinks c o h);
    narrows = λ c v h. a.narrows c v (b.narrows c v h);
  }

  pub Advance-start :
      {stack : List ℕ} (s : Deletion) → IsSafe before stack s → Advance before stack s s
  Advance-start s w = record {
    safe = w;
    grows = λ c h. h;
    shrinks = λ c o h. h;
    narrows = λ c v h. h;
  }

  -- A visit that advances from any safe state.
  abbrev pub Advances : List ℕ → (ℕ → Deletion → Option Deletion) → Type 0
  Advances stack visit =
      (x : ℕ) (s t : Deletion)
      → visit x s ≡ some t
      → IsSafe before stack s
      → Advance before stack s t

  pub visit_all-Advance :
      (stack : List ℕ) (visit : ℕ → Deletion → Option Deletion)
      → Advances stack visit
      → (xs : List ℕ) (s t : Deletion) → visit_all visit xs s ≡ some t
      → IsSafe before stack s
      → Advance before stack s t
  unfolding visit_all
  visit_all-Advance stack visit each [] s t e w =
      subst (Advance before stack s) (some-injective e) (Advance-start s w)
  visit_all-Advance stack visit each (x ∷ xs) s t e w =
      let (u, first, rest) = chain_inverse (visit x s) (visit_all visit xs) t e in
      let a = each x s u first w in
      Advance-trans a (visit_all-Advance stack visit each xs u t rest a.safe)

  pub marked-IsSafe :
      (stack : List ℕ) (x : ℕ) (s : Deletion)
      → IsSafe before stack s
      → IsSafe before (x ∷ stack) (marked x s)
  unfolding member
  marked-IsSafe stack x s w = record {
    accounted = λ c o h. ground (arith, w.accounted c o h, member-insert o x s.delete_set);
    cleared = λ c o h k. ground (arith, w.cleared c o, member-insert c x s.delete_set);
    emptied = λ c v h k. ground (arith, w.emptied c v, member-insert c x s.delete_set);
    stacked = λ c h. ground (arith, w.stacked c, member-insert c x s.delete_set);
  }

  -- The edge to a deleted object can go.
  pub released-Advance :
      (stack : List ℕ) (c x : ℕ) (s : Deletion)
      → member x s.delete_set ≡ true
      → IsSafe before stack s
      → Advance before stack s (record s { supobjects = erase_pair c x s.supobjects })
  released-Advance stack c x s deleted w = record {
    safe = record {
      accounted =
          λ a o h. ground (arith, w.accounted a o h, has_pair-erase_pair a o c x s.supobjects);
      cleared =
          λ a o h k. ground (arith, w.cleared a o h, has_pair-erase_pair a o c x s.supobjects);
      emptied = w.emptied;
      stacked = w.stacked;
    };
    grows = λ a h. h;
    shrinks = λ a o h. ground (arith, has_pair-erase_pair a o c x s.supobjects);
    narrows = λ a v h. h;
  }

  pub release_members-Advance :
      (stack : List ℕ) (visit : ℕ → Deletion → Option Deletion) (deep : Bool) (x : ℕ)
      → Advances stack visit
      → (cs : List ℕ) (s t : Deletion) → release_members visit deep x cs s ≡ some t
      → member x s.delete_set ≡ true
      → IsSafe before stack s
      → Advance before stack s t
  unfolding release_members
  release_members-Advance stack visit deep x each [] s t e d w =
      subst (Advance before stack s) (some-injective e) (Advance-start s w)
  release_members-Advance stack visit true x each (c ∷ cs) s t e d w =
      let r = record s { supobjects = erase_pair c x s.supobjects } in
      let a = released-Advance stack c x s d w in
      let (u, first, rest) = chain_inverse (visit c r) (release_members visit true x cs) t e in
      let b = each c r u first a.safe in
      Advance-trans a (
        Advance-trans b
          (release_members-Advance stack visit true x each cs u t rest (b.grows x d) b.safe))
  release_members-Advance stack visit false x each (c ∷ cs) s t e d w =
      let r = record s { supobjects = erase_pair c x s.supobjects } in
      let a = released-Advance stack c x s d w in
      Advance-trans a (release_members-Advance stack visit false x each cs r t e d a.safe)

  -- A forced visit also deletes what it visits.
  abbrev pub Deletes : List ℕ → (ℕ → Deletion → Option Deletion) → Type 0
  Deletes stack visit =
      (x : ℕ) (s t : Deletion)
      → visit x s ≡ some t
      → IsSafe before stack s
      → member x t.delete_set ≡ true

  pub member-cons :
      (o c : ℕ) (cs : List ℕ) → member o (c ∷ cs) ≡ true → (c ≡ o) ⊎ (member o cs ≡ true)
  unfolding member
  member-cons o c cs h = ground arith

  pub delete_owners-Advance :
      (stack : List ℕ) (visit : ℕ → Deletion → Option Deletion) (x : ℕ)
      → Advances stack visit
      → Deletes stack visit
      → (cs : List ℕ) (s t : Deletion) → delete_owners visit x cs s ≡ some t
      → IsSafe before stack s
      → Advance before stack s t × ((o : ℕ) → member o cs ≡ true → member o t.delete_set ≡ true)
  unfolding delete_owners member
  delete_owners-Advance stack visit x each deletes [] s t e w =
      (subst (Advance before stack s) (some-injective e) (Advance-start s w), (λ o h. ground arith))
  delete_owners-Advance stack visit x each deletes (c ∷ cs) s t e w =
      let r = record s { subobjects = erase_pair c x s.subobjects } in
      let shrunk : (a v : ℕ) → has_pair a v r.subobjects ≡ true → has_pair a v s.subobjects ≡ true =
        λ a v k. ground (arith, has_pair-erase_pair a v c x s.subobjects) in
      let v : IsSafe before stack r = record {
        accounted = w.accounted;
        cleared = w.cleared;
        emptied = λ a v k l. w.emptied a v k (shrunk a v l);
        stacked = w.stacked;
      } in
      let (u, first, rest) = chain_inverse (visit c r) (delete_owners visit x cs) t e in
      let a = each c r u first v in
      let (b, all) = delete_owners-Advance stack visit x each deletes cs u t rest a.safe in
      let gone = b.grows c (deletes c r u first v) in
      (
        record {
          safe = b.safe;
          grows = λ o h. b.grows o (a.grows o h);
          shrinks = λ o p h. a.shrinks o p (b.shrinks o p h);
          narrows = λ o p h. shrunk o p (a.narrows o p (b.narrows o p h));
        },
        (λ o h. elim (member-cons o c cs h) [
          | inl same ↦ subst (λ p. member p t.delete_set ≡ true) same gone
          | inr later ↦ all o later
        ]),
      )
