-- ===== src/Meta/Tree/Reading/Complete.antt =====
-- `ListData` answers, lists what is stored, and leaves nothing out.
use libvineyard.Base.{
  ℕ, suc, ◌≤◌, ◌<◌, ◌≡◌, ◌≢◌, refl, sym, ap, subst, ◌⊎◌, ◌∙◌, Bool, true, false, Option, some, List,
  [], ◌∷◌, is_empty, Text, arith, Any, All, All-mono, length, length-append, leb, inl, inr,
  Bool-cases, Option-cases, Any-left, Any-right, codes,
}
use libvineyard.Common.Ptree.{is_plain, PtreeLibrary, PtreeLaws, empty_tree}
use libvineyard.Common.Status.{Status, ok, is_ok, meta_tree_invalid}
use libvineyard.Meta.Tree.{Exception, found, failed, thrown, get_type, data_prefix}
use libvineyard.Meta.Tree.Reading.{Got, got, get_data, list_objects, list_below, list_data}
use libvineyard.Meta.Tree.Reading.Total.{Ranked, get_data-total, Result-cases}
use libvineyard.Meta.Tree.Reading.Listing.{Matching, add_child-children, list_objects-Within}

module _ {l : PtreeLibrary} (w : PtreeLaws l) where
  get_type-returns : (t : l.Ptree) (x : Exception) → get_type l t true ≢ thrown x
  unfolding get_type
  get_type-returns t x e = elim (Option-cases (l.find (codes "typename") t)) [
    | inl missing ↦ absurd (ground arith)
    | inr (s, there) ↦ elim (Bool-cases (is_empty (l.children s))) [
      | inr full ↦ absurd (ground arith)
      | inl leaf ↦ absurd (ground arith)
    ]
  ]

  get_type-fails :
      (t : l.Ptree) (status : Status) → get_type l t true ≡ failed status → is_ok status ≡ false
  unfolding get_type
  get_type-fails t status e = elim (Option-cases (l.find (codes "typename") t)) [
    | inl missing ↦ ground arith
    | inr (s, there) ↦ elim (Bool-cases (is_empty (l.children s))) [
      | inr full ↦ ground arith
      | inl leaf ↦ ground arith
    ]
  ]

  -- Whether the type of a stored object matches.
  abbrev pub type_matches : (Text → Bool) → l.Ptree → Bool
  type_matches matches t = elim (get_type l t true) [
    | found type ↦ matches type
    | failed status ↦ false
    | thrown x ↦ false
  ]

  -- A stored object whose type matches is among the entries.
  abbrev pub IsCovered : (Text → Bool) → List (Text × l.Ptree) → Text × l.Ptree → Type 0
  IsCovered matches entries kid =
      (type_matches matches kid.1 ≡ false) ⊎ Any (λ entry. entry.0 ≡ kid.0) entries

  -- The list is cut short by an error or the limit, or has all objects that match.
  abbrev pub IsComplete : (Text → Bool) → ℕ → Got l → List (Text × l.Ptree) → Type 0
  IsComplete matches limit g kids =
      (is_ok g.status ≡ false)
      ⊎ (limit ≤ length (l.children g.sub_tree))
      ⊎ All (IsCovered matches (l.children g.sub_tree)) kids

  -- What is in a group stays in it.
  abbrev Stays : l.Ptree → l.Ptree → Type 1
  Stays t u = (P : Text × l.Ptree → Type 0) → Any P (l.children t) → Any P (l.children u)

  IsComplete-with :
      (matches : Text → Bool) (limit : ℕ) (g : Got l) (kid : Text × l.Ptree)
      (kids : List (Text × l.Ptree))
      → IsCovered matches (l.children g.sub_tree) kid
      → IsComplete matches limit g kids
      → IsComplete matches limit g (kid ∷ kids)
  IsComplete-with matches limit g kid kids c (inl bad) = inl bad
  IsComplete-with matches limit g kid kids c (inr (inl full)) = inr (inl full)
  IsComplete-with matches limit g kid kids c (inr (inr all)) = inr (inr (c, all))

  list_objects-total :
      (matches : Text → Bool) (limit : ℕ) (follow : Text → Option (Got l))
      (kids : List (Text × l.Ptree)) (number : ℕ) (tree_group : l.Ptree)
      → length (l.children tree_group) ≡ number
      → All (λ kid. (is_plain kid.0 ≡ true) × ((g : Got l) × (follow kid.0 ≡ some g))) kids
      → (g : Got l) × (list_objects l matches limit follow kids number tree_group ≡ some g)
        × Stays tree_group g.sub_tree
        × IsComplete matches limit g kids
  unfolding list_objects
  list_objects-total matches limit follow [] number tree_group n h =
      (got ok tree_group, refl, (λ P a. a), inr (inr tt))
  list_objects-total matches limit follow ((name, t) ∷ kids) number tree_group n
        ((p, (sub, read)), hs) =
      elim (Bool-cases (leb limit number)) [
        | inl full ↦ rw full (got ok tree_group, refl, (λ P a. a), inr (inl (ground arith)))
        | inr room ↦ elim (Bool-cases (is_empty (l.children t))) [
          | inl bare ↦
              rw (room, bare) (got meta_tree_invalid tree_group, refl, (λ P a. a), inl refl)
          | inr some_ ↦ elim (Result-cases (get_type l t true)) [
            | inr (inl (status, e)) ↦
                rw (room, some_, e)
                  (got status tree_group, refl, (λ P a. a), inl (get_type-fails t status e))
            | inr (inr (x, e)) ↦ absurd (get_type-returns t x e)
            | inl (type, e) ↦ elim (Bool-cases (matches type)) [
              | inr other ↦
                  let (g, done, stays, all) =
                    list_objects-total matches limit follow kids number tree_group n hs in
                  let unmatched : type_matches matches t ≡ false = rw (e, type_matches) other in
                  rw (room, some_, e, other)
                    (
                      g,
                      done,
                      stays,
                      IsComplete-with matches limit g (name, t) kids (inl unmatched) all,
                    )
              | inl same ↦ elim (Bool-cases (is_ok sub.status)) [
                | inr bad ↦
                    rw (room, some_, e, same, read, bad)
                      (got sub.status tree_group, refl, (λ P a. a), inl bad)
                | inl good ↦
                    let more = add_child-children w name sub.sub_tree tree_group p in
                    let (g, done, stays, all) =
                      list_objects-total matches limit follow kids (suc number)
                        (l.add_child name sub.sub_tree tree_group)
                        (ap length more
                          ∙ omega (
                            arith,
                            length-append (l.children tree_group) ((name, sub.sub_tree) ∷ []),
                          ))
                        hs in
                    rw (room, some_, e, same, read, good)
                      (
                        g,
                        done,
                        (λ P a. stays P (
                            subst (Any P) (sym more)
                              (Any-left P (l.children tree_group) ((name, sub.sub_tree) ∷ []) a))),
                        IsComplete-with matches limit g (name, t) kids
                            (inr (
                              stays (λ entry. entry.0 ≡ name)
                                (subst (Any (λ entry. entry.0 ≡ name)) (sym more) (
                                  Any-right (λ (entry : Text × l.Ptree). entry.0 ≡ name)
                                    (l.children tree_group) ((name, sub.sub_tree) ∷ [])
                                    (inl refl)))))
                            all,
                      )
              ]
            ]
          ]
        ]
      ]

  -- An entry of the list is a stored object whose type matches, as `GetData` gives it.
  abbrev pub IsListed :
      (Text → Bool) → (Text → Option (Got l)) → List (Text × l.Ptree) → Text × l.Ptree → Type 0
  IsListed matches follow kids entry =
      Any
        (λ kid.
          (kid.0 ≡ entry.0)
          × ((type : Text) × (get_type l kid.1 true ≡ found type) × (matches type ≡ true))
          × ((g : Got l) × (follow kid.0 ≡ some g)
              × (is_ok g.status ≡ true)
              × (g.sub_tree ≡ entry.1)))
        kids

  IsListed-Matching :
      (matches : Text → Bool) (follow : Text → Option (Got l)) (kids : List (Text × l.Ptree))
      → All (λ kid. is_plain kid.0 ≡ true) kids
      → Matching w matches follow (IsListed matches follow kids) kids
  IsListed-Matching matches follow [] h = tt
  IsListed-Matching matches follow ((name, t) ∷ kids) (p, ps) = (
    (p, (λ type g e m f good. inl (refl, (type, e, m), (g, f, good, refl)))),
    All-mono kids (λ kid h. (h.0, (λ type g e m f good. inr (h.1 type g e m f good))))
        (IsListed-Matching matches follow kids ps),
  )

  -- Where links go down in a rank, there is fuel for it, and the names of the stored objects are plain,
  -- `ListData` answers; it lists at most as many objects as the limit, and each is a stored object whose
  -- type matches, with the metadata that `GetData` of it gives. Unless there is an error or the limit is
  -- reached, all stored objects whose type matches are listed.
  pub list_data-IsListed :
      (rank : Text → ℕ) (fuel : ℕ) (tree metas : l.Ptree) (matches : Text → Bool) (limit : ℕ)
      → l.child data_prefix tree ≡ some metas
      → Ranked l rank tree
      → All (λ kid. (is_plain kid.0 ≡ true) × (rank kid.0 < fuel)) (l.children metas)
      → (g : Got l) × (list_data l fuel tree (some matches) limit ≡ some g)
        × (length (l.children g.sub_tree) ≤ limit)
        × All (IsListed matches (get_data l fuel tree) (l.children metas)) (l.children g.sub_tree)
        × IsComplete matches limit g (l.children metas)
  unfolding list_data
  list_data-IsListed rank fuel tree metas matches limit there h fits =
      let follow = get_data l fuel tree in
      let kids = l.children metas in
      let (g, done, stays, complete) =
        list_objects-total matches limit follow kids 0 (empty_tree l)
          (rw (w.children-node [] []) refl)
          (All-mono kids (λ kid f. (f.0, get_data-total rank tree fuel kid.0 h f.1)) fits) in
      let (small, all) =
        list_objects-Within w matches limit follow kids 0 (empty_tree l) g
          (IsListed matches follow kids)
          (IsListed-Matching matches follow kids (All-mono kids (λ kid f. f.0) fits))
          (rw (w.children-node [] []) refl) (omega arith) (rw (w.children-node [] []) tt) done in
      (g, ap (list_below l fuel tree (some matches) limit) there ∙ done, small, all, complete)
