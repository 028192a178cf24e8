-- ===== src/Meta/Tree/Reading/Total.antt =====
-- Reading an object ends where the links go down, and it follows every link.
use libvineyard.Base.{
  ℕ, zero, suc, ◌<◌, ◌≡◌, refl, Option, none, some, List, [], ◌∷◌, Text, arith, All, All-mono, true,
  false, is_empty, branch_inverse, some-injective, subst, sym, ap, ◌∙◌, chain, ◌≢◌, inl, inr, ◌⊎◌,
  Bool-cases,
}
use mathlib.Core.Path.{subst₂}
use libvineyard.Common.Ptree.{is_plain, find_key, PtreeLibrary, PtreeLaws, empty_tree}
use libvineyard.Common.Ptree.Fields.{text_eq→≡}
use libvineyard.Meta.Paths.{text_eq, has_char}
use libvineyard.Common.Status.{Status, is_ok, meta_tree_type_invalid}
use libvineyard.Meta.Tree.{
  Exception, Result, found, failed, thrown, with_children, get_sub_tree, data_prefix,
}
use libvineyard.Meta.Tree.Reading.{
  Got, got, Field, plain, linked, bad_link, untagged, field_of, get_fields, with_id, get_data,
}

-- The object that a field's text links to.
unfoldable pub target : Text → Option Text
target s = elim (field_of s) [
  | plain v ↦ none
  | linked name ↦ some name
  | bad_link status ↦ none
  | untagged ↦ none
]

-- The links of the stored objects go to objects of lower rank: there is no cycle.
abbrev pub Ranked : (l : PtreeLibrary) → (Text → ℕ) → l.Ptree → Type 0
Ranked l rank tree =
    (name : Text) (t : l.Ptree)
    → get_sub_tree l tree data_prefix name ≡ found t
    → All (λ kid. (sub : Text) → target (l.text kid.1) ≡ some sub → rank sub < rank name)
        (l.children t)

Follows : (l : PtreeLibrary) → (Text → Option (Got l)) → List (Text × l.Ptree) → Type 0
Follows l follow kids =
    All
      (λ kid. (sub : Text) → target (l.text kid.1) ≡ some sub → (g : Got l) × (follow sub ≡ some g))
      kids

Field-cases :
    (f : Field)
    → ((v : Text) × (f ≡ plain v))
      ⊎ (((name : Text) × (f ≡ linked name)) ⊎ (((s : Status) × (f ≡ bad_link s)) ⊎ (f ≡ untagged)))
Field-cases (plain v) = inl (v, refl)
Field-cases (linked name) = inr (inl (name, refl))
Field-cases (bad_link status) = inr (inr (inl (status, refl)))
Field-cases untagged = inr (inr (inr refl))

pub Result-cases {ℓ} :
    {A : Type ℓ} (r : Result A)
    → ((t : A) × (r ≡ found t))
      ⊎ (((s : Status) × (r ≡ failed s)) ⊎ ((x : Exception) × (r ≡ thrown x)))
Result-cases (found t) = inl (t, refl)
Result-cases (failed status) = inr (inl (status, refl))
Result-cases (thrown x) = inr (inr (x, refl))

get_sub_tree-returns :
    (l : PtreeLibrary) (tree : l.Ptree) (prefix name : Text)
    → (x : Exception) → get_sub_tree l tree prefix name ≢ thrown x
unfolding get_sub_tree
get_sub_tree-returns l tree prefix name x e = ground arith

module _ {l : PtreeLibrary} where
  get_fields-total :
      (follow : Text → Option (Got l)) (kids : List (Text × l.Ptree)) (sub_tree : l.Ptree)
      → Follows l follow kids
      → (g : Got l) × (get_fields l follow kids sub_tree ≡ some g)
  unfolding get_fields target Follows
  get_fields-total follow [] sub_tree h = (_, refl)
  get_fields-total follow ((k, c) ∷ kids) sub_tree h = elim (Field-cases (field_of (l.text c))) [
    | inl (v, e) ↦ rw (e, get_fields) (get_fields-total follow kids (l.put k v sub_tree) h.1)
    | inr (inl (name, e)) ↦
        let (g, read) = h.0 name (rw (e, target)) in
        elim (Bool-cases (is_ok g.status)) [
          | inl good ↦
              rw (e, read, good, get_fields)
                (get_fields-total follow kids (l.add_child k g.sub_tree sub_tree) h.1)
          | inr bad ↦ rw (e, read, bad, get_fields) (got g.status (empty_tree l), refl)
        ]
    | inr (inr (inl (status, e))) ↦ rw (e, get_fields) (got status (empty_tree l), refl)
    | inr (inr (inr e)) ↦ rw (e, get_fields) (got meta_tree_type_invalid sub_tree, refl)
  ]

  -- Where the links of the stored objects go down in a rank, reading an object returns with fuel for one
  -- object more than its rank.
  pub get_data-total :
      (rank : Text → ℕ) (tree : l.Ptree) (fuel : ℕ) (name : Text)
      → Ranked l rank tree
      → rank name < fuel
      → (g : Got l) × (get_data l fuel tree name ≡ some g)
  unfolding get_data Follows
  get_data-total rank tree zero name h small = absurd (omega arith)
  get_data-total rank tree (suc fuel) name h small =
      elim (Result-cases (get_sub_tree l tree data_prefix name)) [
        | inl (t, e) ↦
            let (g, done) = get_fields-total (get_data l fuel tree) (l.children t) (empty_tree l) (
              All-mono (l.children t)
                (λ kid below sub to.
                  get_data-total rank tree fuel sub h (omega (arith, below sub to)))
                (h name t e)) in
            rw (e, done, get_data) (with_id l name g, refl)
        | inr (inl (status, e)) ↦ rw (e, get_data) (got status (empty_tree l), refl)
        | inr (inr (x, e)) ↦ absurd (get_sub_tree-returns l tree data_prefix name x e)
      ]

-- The fields of an object link to objects of lower rank.
abbrev pub LinksDown : (l : PtreeLibrary) → (Text → ℕ) → Text → l.Ptree → Type 0
LinksDown l rank name t =
    All (λ kid. (sub : Text) → target (l.text kid.1) ≡ some sub → rank sub < rank name)
      (l.children t)

not_found {ℓ} : {A : Type ℓ} {a : A} {s : Status} → failed s ≡ found a → ⊥
not_found e = cc

found-injective {ℓ} : {A : Type ℓ} {a b : A} → found a ≡ found b → a ≡ b
found-injective e = cc

plain_cons : (c : ℕ) (name : Text) → has_char b'.' (c ∷ name) ≡ false → is_plain (c ∷ name) ≡ true
unfolding is_plain
plain_cons c name h = rw h

find_key-All :
    {A : Type 0} (P : Text → A → Type 0) (k : Text) (kids : List (Text × A)) (a : A)
    → All (λ kid. P kid.0 kid.1) kids
    → find_key k kids ≡ some a
    → P k a
unfolding find_key
find_key-All P k [] a h e = absurd (ground arith)
find_key-All P k ((j, b) ∷ kids) a h e = elim (branch_inverse (text_eq j k) _ _ _ e) [
  | inl (same, here) ↦ subst₂ P (text_eq→≡ j k same) (some-injective here) h.0
  | inr (other, later) ↦ find_key-All P k kids a h.1 later
]

module _ {l : PtreeLibrary} (w : PtreeLaws l) where
  with_children_inverse :
      (o : Option l.Ptree) (t : l.Ptree) → with_children l o ≡ found t → o ≡ some t
  with_children_inverse none t e = absurd cc
  with_children_inverse (some s) t e = elim (branch_inverse (is_empty (l.children s)) _ _ _ e) [
    | inl (bare, failed_) ↦ absurd (not_found failed_)
    | inr (full, same) ↦ ap some (found-injective same)
  ]

  -- A tree is ranked where each of its objects links down, and the text of no object is a link.
  pub LinksDown-Ranked :
      (rank : Text → ℕ) (tree metas : l.Ptree)
      → l.child data_prefix tree ≡ some metas
      → All (λ kid. LinksDown l rank kid.0 kid.1) (l.children metas)
      → LinksDown l rank [] metas
      → Ranked l rank tree
  unfolding get_sub_tree is_plain has_char
  LinksDown-Ranked rank tree metas there down top [] t e =
      subst (LinksDown l rank []) (some-injective (sym there ∙ with_children_inverse _ t e)) top
  LinksDown-Ranked rank tree metas there down top (c ∷ name) t e =
      elim (branch_inverse (has_char b'.' (c ∷ name)) _ _ _ e) [
        | inl (dotted, refused_) ↦ absurd (not_found refused_)
        | inr (dotless, stored) ↦
            let plain_name = plain_cons c name dotless in
            find_key-All (LinksDown l rank) (c ∷ name) (l.children metas) t down (
              sym (w.child_lem (c ∷ name) metas plain_name)
              ∙ (ap (λ o. chain o (l.child (c ∷ name))) (sym there)
                  ∙ (sym (w.child-path data_prefix (c ∷ name) tree refl plain_name)
                      ∙ with_children_inverse _ t stored)))
      ]
