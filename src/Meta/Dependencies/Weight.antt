-- ===== src/Meta/Dependencies/Weight.antt =====
-- The measure for the fuel of a deletion: the number of objects that are left, times the height of
-- their ranks; and the loops of a deletion under it.
use libvineyard.Base.{
  ℕ, suc, ◌+◌, ◌*◌, ◌≤◌, ◌<◌, Bool, true, false, Option, some, List, [], ◌∷◌, ◌==◌, if◌then◌else◌,
  ◌≡◌, refl, inl, inr, Bool-cases, ==_iff, arith,
}
use libvineyard.Base.Multimap.{Multimap, member, insert, erase_pair, has_pair, member-insert}
use libvineyard.Meta.Dependencies.{Deletion, visit_all, release_members}
use libvineyard.Meta.Dependencies.Advance.{IsSafe, Advance, Advances, released-Advance}

-- How many of the objects are not deleted.
unfoldable pub left : List ℕ → List ℕ → ℕ
left [] deleted = 0
left (x ∷ xs) deleted = let rest = left xs deleted in if member x deleted then rest else suc rest

left-grows :
    (xs d e : List ℕ) → ((c : ℕ) → member c d ≡ true → member c e ≡ true) → left xs e ≤ left xs d
unfolding left
left-grows [] d e f = ground arith
left-grows (x ∷ xs) d e f = ground (arith, left-grows xs d e f, f x)

pub left-insert :
    (xs d : List ℕ) (x : ℕ)
    → member x xs ≡ true
    → member x d ≡ false
    → suc (left xs (insert x d)) ≤ left xs d
unfolding left member
left-insert [] d x h k = ground arith
left-insert (y ∷ ys) d x h k = elim (Bool-cases (y == x)) [
  | inl same ↦
      let e = (==_iff y x).0 same in
      ground (
        arith,
        e,
        member-insert y x d,
        left-grows ys d (insert x d) (λ c i. ground (arith, member-insert c x d)),
      )
  | inr other ↦ ground (arith, member-insert y x d, left-insert ys d x (ground arith) k)
]

weight_mono : (a b h : ℕ) → a ≤ b → a * h ≤ b * h
weight_mono a b h le = grind arith

pub weight_less : (a b h : ℕ) → suc a ≤ b → a * h + h ≤ b * h
weight_less a b h le = grind arith

abbrev pub Returns : Option Deletion → Type 0
Returns o = (t : Deletion) × (o ≡ some t)

-- The objects are among a list of them, and owners have a lower rank than their members.
pub record IsRanked (objects : List ℕ) (rank : ℕ → ℕ) (subobjects supobjects : Multimap)
    : Type 0 where
  pub ranked : (c o : ℕ) → has_pair c o supobjects ≡ true → rank o < rank c
  pub owner_known : (c o : ℕ) → has_pair c o supobjects ≡ true → member o objects ≡ true
  pub member_known : (o c : ℕ) → has_pair o c subobjects ≡ true → member c objects ≡ true

module _ (before : Multimap) (objects : List ℕ) (rank : ℕ → ℕ) (height : ℕ)
    (low : (x : ℕ) → rank x < height) where
  abbrev pub Ranked : Deletion → Type 0
  Ranked s = IsRanked objects rank s.subobjects s.supobjects

  pub Ranked-Advance :
      {stack : List ℕ} {s t : Deletion} → Advance before stack s t → Ranked s → Ranked t
  Ranked-Advance a w = record {
    ranked = λ c o h. w.ranked c o (a.shrinks c o h);
    owner_known = λ c o h. w.owner_known c o (a.shrinks c o h);
    member_known = λ o c h. w.member_known o c (a.narrows o c h);
  }

  unfoldable pub weight : Deletion → ℕ
  weight s = left objects s.delete_set * height

  pub weight-Advance :
      {stack : List ℕ} {s t : Deletion} → Advance before stack s t → weight t ≤ weight s
  unfolding weight
  weight-Advance {stack} {s} {t} a =
      weight_mono (left objects t.delete_set) (left objects s.delete_set) height
        (left-grows objects s.delete_set t.delete_set a.grows)

  -- A visit that returns from a state with fuel to spare.
  abbrev pub Ends : List ℕ → ℕ → (ℕ → Deletion → Option Deletion) → Type 0
  Ends stack fuel visit =
      (x : ℕ) (s : Deletion)
      → IsSafe before stack s
      → Ranked s
      → member x objects ≡ true
      → weight s + rank x < fuel
      → Returns (visit x s)

  pub visit_all-Returns :
      (stack : List ℕ) (fuel : ℕ) (visit : ℕ → Deletion → Option Deletion)
      → Advances before stack visit
      → Ends stack fuel visit
      → (xs : List ℕ) (s : Deletion) → IsSafe before stack s
      → Ranked s
      → ((x : ℕ) → member x xs ≡ true → (member x objects ≡ true) × (weight s + rank x < fuel))
      → Returns (visit_all visit xs s)
  unfolding visit_all member
  visit_all-Returns stack fuel visit each ends [] s w r known = (s, refl)
  visit_all-Returns stack fuel visit each ends (x ∷ xs) s w r known =
      let (here, fits) = known x (ground arith) in
      let (t, e) = ends x s w r here fits in
      let a = each x s t e w in
      let less = weight-Advance a in
      rw (e, visit_all)
        (visit_all-Returns stack fuel visit each ends xs t a.safe (Ranked-Advance a r)
          (λ y h. let (k, f) = known y (ground arith) in (k, omega arith)))

  pub release_members-Returns :
      (stack : List ℕ) (fuel : ℕ) (visit : ℕ → Deletion → Option Deletion) (deep : Bool) (x : ℕ)
      → Advances before stack visit
      → Ends stack fuel visit
      → (cs : List ℕ) (s : Deletion) → IsSafe before stack s
      → Ranked s
      → member x s.delete_set ≡ true
      → ((c : ℕ) → member c cs ≡ true → member c objects ≡ true)
      → weight s + height ≤ fuel
      → Returns (release_members visit deep x cs s)
  unfolding release_members member
  release_members-Returns stack fuel visit deep x each ends [] s w r d known fits = (s, refl)
  release_members-Returns stack fuel visit true x each ends (c ∷ cs) s w r d known fits =
      let u = record s { supobjects = erase_pair c x s.supobjects } in
      let a = released-Advance before stack c x s d w in
      let (t, e) =
        ends c u a.safe (Ranked-Advance a r) (known c (ground arith))
          (omega (arith, weight-Advance a, low c)) in
      let b = each c u t e a.safe in
      rw (e, release_members)
        (release_members-Returns stack fuel visit true x each ends cs t b.safe
          (Ranked-Advance b (Ranked-Advance a r)) (b.grows x d) (λ y h. known y (ground arith))
          (omega (arith, weight-Advance a, weight-Advance b)))
  release_members-Returns stack fuel visit false x each ends (c ∷ cs) s w r d known fits =
      let u = record s { supobjects = erase_pair c x s.supobjects } in
      let a = released-Advance before stack c x s d w in
      release_members-Returns stack fuel visit false x each ends cs u a.safe (Ranked-Advance a r) d
        (λ y h. known y (ground arith)) (omega (arith, weight-Advance a))
