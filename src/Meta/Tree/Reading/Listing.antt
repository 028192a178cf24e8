-- ===== src/Meta/Tree/Reading/Listing.antt =====
-- What `ListData` lists.
use libvineyard.Base.{
  ℕ, suc, ◌≤◌, ◌≡◌, refl, sym, ap, subst, ◌⊎◌, ◌∙◌, Bool, true, Option, some, List, [], ◌∷◌, ◌++◌,
  is_empty, Text, arith, All, All-append, length, length-append, leb, inl, inr, chain_result,
  branch_inverse, some-injective,
}
use libvineyard.Common.Ptree.{is_plain, PtreeLibrary, PtreeLaws}
use libvineyard.Common.Status.{Status, is_ok}
use libvineyard.Meta.Tree.{Result, found, failed, thrown, get_type}
use libvineyard.Meta.Tree.Reading.{Got, got, on_type, list_objects}

module _ {l : PtreeLibrary} (w : PtreeLaws l) where
  -- At most as many children as the limit, each with a property.
  abbrev Within : ℕ → (Text × l.Ptree → Type 0) → l.Ptree → Type 0
  Within limit P t = (length (l.children t) ≤ limit) × All (λ kid. P kid) (l.children t)

  -- What is read of the objects that match has the property.
  abbrev pub Matching :
      (Text → Bool)
      → (Text → Option (Got l))
      → (Text × l.Ptree → Type 0)
      → List (Text × l.Ptree)
      → Type 0
  Matching matches follow P kids =
      All
        (λ kid.
          (is_plain kid.0 ≡ true)
          × ((type : Text) (g : Got l)
              → get_type l kid.1 true ≡ found type
              → matches type ≡ true
              → follow kid.0 ≡ some g
              → is_ok g.status ≡ true
              → P (kid.0, g.sub_tree)))
        kids

  pub add_child-children :
      (k : Text) (s t : l.Ptree)
      → is_plain k ≡ true
      → l.children (l.add_child k s t) ≡ l.children t ++ (k, s) ∷ []
  add_child-children k s t p = rw (w.add_child_lem k s t p, w.children-node)

  within :
      (limit : ℕ) (P : Text × l.Ptree → Type 0) (t : l.Ptree) (number : ℕ)
      → length (l.children t) ≡ number
      → number ≤ limit
      → All (λ kid. P kid) (l.children t)
      → Within limit P t
  within limit P t number n small all = (omega arith, all)

  stays_Within :
      (limit : ℕ) (P : Text × l.Ptree → Type 0) (t : l.Ptree) (g : Got l) (number : ℕ)
      → length (l.children t) ≡ number
      → number ≤ limit
      → All (λ kid. P kid) (l.children t)
      → (status : Status) → some (got status t) ≡ some g
      → Within limit P g.sub_tree
  stays_Within limit P t g number n small all status h =
      subst (λ (x : Got l). Within limit P x.sub_tree) (some-injective h)
        (within limit P t number n small all)

  on_type_inverse :
      (tree_group : l.Ptree) (r : Result Text) (f : Text → Option (Got l)) (g : Got l)
      → on_type l tree_group r f ≡ some g
      → ((type : Text) × (r ≡ found type) × (f type ≡ some g)) ⊎ (g.sub_tree ≡ tree_group)
  on_type_inverse tree_group (found type) f g h = inl (type, refl, h)
  on_type_inverse tree_group (failed status) f g h =
      inr (sym (ap (λ (x : Got l). x.sub_tree) (some-injective h)))
  on_type_inverse tree_group (thrown e) f g h = absurd cc

  pub list_objects-Within :
      (matches : Text → Bool) (limit : ℕ) (follow : Text → Option (Got l))
      (kids : List (Text × l.Ptree)) (number : ℕ) (tree_group : l.Ptree) (g : Got l)
      (P : Text × l.Ptree → Type 0)
      → Matching matches follow P kids
      → length (l.children tree_group) ≡ number
      → number ≤ limit
      → All (λ kid. P kid) (l.children tree_group)
      → list_objects l matches limit follow kids number tree_group ≡ some g
      → Within limit P g.sub_tree
  unfolding list_objects
  list_objects-Within matches limit follow [] number tree_group g P m n small all h =
      stays_Within limit P tree_group g number n small all _ h
  list_objects-Within matches limit follow ((name, t) ∷ kids) number tree_group g P m n small all
        h =
      elim (branch_inverse (leb limit number) _ _ _ h) [
        | inl (full, h1) ↦ stays_Within limit P tree_group g number n small all _ h1
        | inr (room, h1) ↦ elim (branch_inverse (is_empty (l.children t)) _ _ _ h1) [
          | inl (bare, h2) ↦ stays_Within limit P tree_group g number n small all _ h2
          | inr (full, h2) ↦ elim (on_type_inverse tree_group (get_type l t true) _ g h2) [
            | inr same ↦
                subst (Within limit P) (sym same) (within limit P tree_group number n small all)
            | inl (type, typed, h3) ↦ elim (branch_inverse (matches type) _ _ _ h3) [
              | inr (other, h4) ↦
                  list_objects-Within matches limit follow kids number tree_group g P m.1 n small
                    all h4
              | inl (matched, h4) ↦
                  let (sub, read, h5) = chain_result (follow name) _ g h4 in
                  elim (branch_inverse (is_ok sub.status) _ _ _ h5) [
                    | inr (bad, h6) ↦ stays_Within limit P tree_group g number n small all _ h6
                    | inl (good, h6) ↦
                        let more = add_child-children name sub.sub_tree tree_group m.0.0 in
                        list_objects-Within matches limit follow kids (suc number) _ g P m.1
                          (ap length more
                            ∙ omega (
                              arith,
                              length-append (l.children tree_group) ((name, sub.sub_tree) ∷ []),
                            ))
                          (ground (arith))
                          (subst (All (λ kid. P kid)) (sym more) (
                            All-append (λ kid. P kid) (l.children tree_group)
                              ((name, sub.sub_tree) ∷ []) all
                              (m.0.1 type sub typed matched read good, tt)))
                          h6
                  ]
            ]
          ]
        ]
      ]
