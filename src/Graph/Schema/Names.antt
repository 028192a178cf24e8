-- ===== src/Graph/Schema/Names.antt =====
-- The ids of a schema's labels and properties are their positions, and lead back to the names.
use libvineyard.Base.{
  ℕ, zero, suc, ◌+◌, ◌-◌, ◌≤◌, ◌≡◌, refl, ap, sym, ◌∙◌, subst, Option, some, List, [], ◌∷◌, ◌++◌,
  Text, length, chain, arith, Bool-cases, inl, inr, branch_inverse, chain_result, some-injective,
  All, All-append,
}
use libvineyard.Common.Ptree.Fields.{text_eq→≡}
use libvineyard.Meta.Paths.{text_eq}
use libvineyard.Graph.Schema.{
  PropertyDef, Entry, Schema, element, first_id, is_vertex, add_property, get_property_id, created,
  create_entry, change_entry, change_mutable_entry, id_of_label, get_vertex_label_id,
  get_vertex_label_name, property_id_in, property_in, get_vertex_property_id,
  get_vertex_property_name, get_edge_property_id, get_edge_property_name,
}

-- The ids count up from a number.
abbrev pub Numbered : {A : Type 0} → (A → ℕ) → ℕ → List A → Type 0
Numbered id_of i [] = Unit
Numbered id_of i (a ∷ xs) = (id_of a ≡ i) × Numbered id_of (suc i) xs

Numbered-snoc :
    {A : Type 0} (id_of : A → ℕ) (i : ℕ) (xs : List A) (a : A)
    → Numbered id_of i xs
    → id_of a ≡ i + length xs
    → Numbered id_of i (xs ++ a ∷ [])
Numbered-snoc id_of i [] a h e = (omega (arith, e), tt)
Numbered-snoc id_of i (x ∷ xs) a h e =
    (h.0, Numbered-snoc id_of (suc i) xs a h.1 (omega (arith, e)))

first_id-name :
    {A : Type 0} (name_of : A → Text) (id_of : A → ℕ) (i : ℕ) (xs : List A) (name : Text) (j : ℕ)
    → Numbered id_of i xs
    → first_id name_of id_of name xs ≡ some j
    → (i ≤ j) × ((a : A) × (element (j - i) xs ≡ some a) × (name_of a ≡ name))
unfolding first_id element
first_id-name name_of id_of i [] name j h e = absurd (ground arith)
first_id-name name_of id_of i (a ∷ xs) name j (h, hs) e =
    elim (branch_inverse (text_eq (name_of a) name) _ _ _ e) [
      | inl (same, here) ↦
          let at : i ≡ j = sym h ∙ some-injective here in
          let first : j - i ≡ 0 = omega (arith, at) in
          (omega (arith, at), (a, rw first refl, text_eq→≡ (name_of a) name same))
      | inr (other, later) ↦
          let (below, (b, found, named)) = first_id-name name_of id_of (suc i) xs name j hs later in
          let further : j - i ≡ suc (j - suc i) = omega (arith, below) in
          (omega (arith, below), (b, rw further found, named))
    ]

first_id-element :
    {A : Type 0} (name_of : A → Text) (id_of : A → ℕ) (xs : List A) (name : Text) (j : ℕ)
    → Numbered id_of 0 xs
    → first_id name_of id_of name xs ≡ some j
    → (a : A) × (element j xs ≡ some a) × (name_of a ≡ name)
first_id-element name_of id_of xs name j h e =
    let (below, (a, there, named)) = first_id-name name_of id_of 0 xs name j h e in
    let whole : j - 0 ≡ j = omega arith in
    (a, subst (λ i. element i xs ≡ some a) whole there, named)

-- An edit of a schema: a label, or a property of a label.
pub data Edit (T : Type 0) : Type 0 where
  creates : Text → Text → Edit T
  adds : Text → Text → Text → T → Edit T

module _ {T : Type 0} where
  -- The ids of the properties of an entry are their positions.
  abbrev IsEntry : Entry T → Type 0
  IsEntry e = Numbered (λ (p : PropertyDef T). p.id) 0 e.props

  abbrev AreEntries : List (Entry T) → Type 0
  AreEntries es = Numbered (λ (e : Entry T). e.id) 0 es × All IsEntry es

  abbrev pub IsNumbered : Schema T → Type 0
  IsNumbered s = AreEntries s.vertex_entries × AreEntries s.edge_entries

  abbrev pub edit : Edit T → Schema T → Option (Schema T)
  edit (creates name type) s = some (create_entry name type s)
  edit (adds label type name t) s = change_mutable_entry label type (add_property name t) s

  abbrev pub edit_all : List (Edit T) → Schema T → Option (Schema T)
  edit_all [] s = some s
  edit_all (e ∷ es) s = chain (edit e s) (edit_all es)

  created-AreEntries :
      (name type : Text) (es : List (Entry T)) → AreEntries es → AreEntries (created name type es)
  unfolding created
  created-AreEntries name type es (h, hs) =
      (Numbered-snoc _ 0 es _ h (omega arith), All-append IsEntry es _ hs (tt, tt))

  add_property-IsEntry :
      (name : Text) (t : T) (e : Entry T) → IsEntry e → IsEntry (add_property name t e)
  unfolding add_property
  add_property-IsEntry name t e h = Numbered-snoc _ 0 e.props _ h (omega arith)

  abbrev From : ℕ → List (Entry T) → Type 0
  From i es = Numbered (λ (e : Entry T). e.id) i es × All IsEntry es

  change_entry-From :
      (label name : Text) (t : T) (i : ℕ) (es fs : List (Entry T))
      → From i es
      → change_entry label (add_property name t) es ≡ some fs
      → From i fs
  unfolding change_entry add_property
  change_entry-From label name t i [] fs h e = absurd (ground arith)
  change_entry-From label name t i (x ∷ xs) fs ((n, ns), (h, hs)) e =
      elim (branch_inverse (text_eq x.label label) _ _ _ e) [
        | inl (same, here) ↦
            subst (From i) (some-injective here) ((n, ns), (add_property-IsEntry name t x h, hs))
        | inr (other, later) ↦
            let (gs, rest, made) =
              chain_result (change_entry label (add_property name t) xs) (λ gs. some (x ∷ gs)) fs
                later in
            let (ms, ks) = change_entry-From label name t (suc i) xs gs (ns, hs) rest in
            subst (From i) (some-injective made) ((n, ms), (h, ks))
      ]

  create_entry-IsNumbered :
      (name type : Text) (s : Schema T) → IsNumbered s → IsNumbered (create_entry name type s)
  unfolding create_entry
  create_entry-IsNumbered name type s (v, w) = elim (Bool-cases (is_vertex type)) [
    | inl vertex ↦ rw vertex (created-AreEntries name type s.vertex_entries v, w)
    | inr edge ↦ rw edge (v, created-AreEntries name type s.edge_entries w)
  ]

  edit-IsNumbered : (e : Edit T) (s t : Schema T) → IsNumbered s → edit e s ≡ some t → IsNumbered t
  unfolding change_mutable_entry
  edit-IsNumbered (creates name type) s t h e =
      subst IsNumbered (some-injective e) (create_entry-IsNumbered name type s h)
  edit-IsNumbered (adds label type name x) s t (v, w) e =
      elim (branch_inverse (is_vertex type) _ _ _ e) [
        | inl (vertex, h) ↦
            let (es, changed, made) =
              chain_result (change_entry label (add_property name x) s.vertex_entries)
                (λ es. some (record s { vertex_entries = es })) t h in
            subst IsNumbered (some-injective made)
              (change_entry-From label name x 0 s.vertex_entries es v changed, w)
        | inr (edge, h) ↦
            let (es, changed, made) =
              chain_result (change_entry label (add_property name x) s.edge_entries)
                (λ es. some (record s { edge_entries = es })) t h in
            subst IsNumbered (some-injective made)
              (v, change_entry-From label name x 0 s.edge_entries es w changed)
      ]

  edit_all-IsNumbered :
      (es : List (Edit T)) (s t : Schema T) → IsNumbered s → edit_all es s ≡ some t → IsNumbered t
  edit_all-IsNumbered [] s t h e = subst IsNumbered (some-injective e) h
  edit_all-IsNumbered (x ∷ es) s t h e =
      let (u, first, rest) = chain_result (edit x s) (edit_all es) t e in
      edit_all-IsNumbered es u t (edit-IsNumbered x s u h first) rest

  element-All :
      (P : Entry T → Type 0) (i : ℕ) (es : List (Entry T)) (e : Entry T)
      → All P es
      → element i es ≡ some e
      → P e
  unfolding element
  element-All P i [] e h there = absurd (ground arith)
  element-All P zero (x ∷ es) e h there = subst P (some-injective there) h.0
  element-All P (suc i) (x ∷ es) e h there = element-All P i es e h.1 there

  label_named :
      (es : List (Entry T)) (name : Text) (j : ℕ)
      → AreEntries es
      → id_of_label name es ≡ some j
      → chain (element j es) (λ e. some e.label) ≡ some name
  label_named es name j h e =
      let (x, there, named) =
        first_id-element (λ (e : Entry T). e.label) (λ e. e.id) es name j h.0 e in
      rw there (ap some named)

  property_named :
      (es : List (Entry T)) (label_id : ℕ) (name : Text) (j : ℕ)
      → AreEntries es
      → property_id_in label_id name es ≡ some j
      → chain (property_in label_id j es) (λ p. some p.name) ≡ some name
  unfolding property_id_in property_in
  property_named es label_id name j h e =
      let (x, there, looked) = chain_result (element label_id es) (get_property_id name) j e in
      let (p, found, named) =
        first_id-element (λ (p : PropertyDef T). p.name) (λ p. p.id) x.props name j
          (element-All IsEntry label_id es x h.1 there) looked in
      rw (there, found) (ap some named)

  -- However a schema with a number of fragments is built up, by labels and by properties of labels that
  -- it has, the ids of its labels and of its properties, of vertices and of edges, lead back to the
  -- names that they have been looked up by; but for the names of the labels of edges.
  pub edit_all-names :
      (edits : List (Edit T)) (n : ℕ) (s : Schema T)
      → edit_all edits (record { fnum = n; vertex_entries = []; edge_entries = [] }) ≡ some s
      → ((name : Text) (j : ℕ)
          → get_vertex_label_id name s ≡ some j
          → get_vertex_label_name j s ≡ some name)
        × ((label_id : ℕ) (name : Text) (j : ℕ)
            → get_vertex_property_id label_id name s ≡ some j
            → get_vertex_property_name label_id j s ≡ some name)
        × ((label_id : ℕ) (name : Text) (j : ℕ)
            → get_edge_property_id label_id name s ≡ some j
            → get_edge_property_name label_id j s ≡ some name)
  unfolding get_vertex_label_id get_vertex_label_name get_vertex_property_name
      get_edge_property_name
  edit_all-names edits n s e =
      let (v, w) = edit_all-IsNumbered edits _ s ((tt, tt), (tt, tt)) e in
      (
        (λ name j h. label_named s.vertex_entries name j v h),
        (λ label_id name j h. property_named s.vertex_entries label_id name j v h),
        (λ label_id name j h. property_named s.edge_entries label_id name j w h),
      )
