-- ===== src/Common/Ptree/Fields.antt =====
-- The fields of a tree: what `get` finds after `put` and after `add_child`.
use libvineyard.Base.{
  ◌≡◌, refl, sym, ap, ◌∙◌, true, false, Option, none, some, List, [], ◌∷◌, ◌++◌, if◌then◌else◌,
  is_set, chain, Bool-cases, inl, inr, Text, arith,
}
use libvineyard.Meta.Paths.{text_eq}
use libvineyard.Common.Ptree.{
  is_plain, find_key, put_key, PtreeLibrary, PtreeLaws, empty_tree, with_text,
}

pub text_eq_refl : (s : Text) → text_eq s s ≡ true
unfolding text_eq
text_eq_refl [] = refl
text_eq_refl (c ∷ s) = ground (arith, text_eq_refl s)

pub text_eq→≡ : (s t : Text) → text_eq s t ≡ true → s ≡ t
unfolding text_eq
text_eq→≡ [] [] h = refl
text_eq→≡ [] (d ∷ t) h = absurd (ground arith)
text_eq→≡ (c ∷ s) [] h = absurd (ground arith)
text_eq→≡ (c ∷ s) (d ∷ t) h = ground (arith, text_eq→≡ s t)

pub text_eq_sym : (s t : Text) → text_eq s t ≡ text_eq t s
unfolding text_eq
text_eq_sym [] [] = refl
text_eq_sym [] (d ∷ t) = refl
text_eq_sym (c ∷ s) [] = refl
text_eq_sym (c ∷ s) (d ∷ t) = ground (arith, text_eq_sym s t)

pub text_eq_switch : (i j k : Text) → text_eq i k ≡ true → text_eq i j ≡ text_eq k j
text_eq_switch i j k h = ap (λ s. text_eq s j) (text_eq→≡ i k h)

pub text_eq_apart : (i j k : Text) → text_eq i k ≡ false → text_eq i j ≡ true → text_eq k j ≡ false
text_eq_apart i j k h g = text_eq_sym k j ∙ (ap (λ s. text_eq s k) (sym (text_eq→≡ i j g)) ∙ h)

module _ {ℓ} {A : Type ℓ} where
  pub find_key-put_key :
      (j k : Text) (f : Option A → A) (kids : List (Text × A))
      → find_key j (put_key k f kids)
        ≡ (if text_eq k j then some (f (find_key k kids)) else find_key j kids)
  unfolding find_key put_key
  find_key-put_key j k f [] = refl
  find_key-put_key j k f ((i, a) ∷ kids) =
      ground (arith, find_key-put_key j k f kids, text_eq_switch i j k, text_eq_apart i j k)

  pub find_key-snoc :
      (j k : Text) (a : A) (kids : List (Text × A))
      → find_key j (kids ++ (k, a) ∷ []) ≡ (
          if is_set (find_key j kids)
          then find_key j kids
          else if text_eq k j
          then some a
          else none)
  unfolding find_key
  find_key-snoc j k a [] = refl
  find_key-snoc j k a ((i, b) ∷ kids) = ground (arith, find_key-snoc j k a kids)

-- `get_optional<std::string>`
unfoldable pub get_text : (l : PtreeLibrary) → Text → l.Ptree → Option Text
get_text l k t = chain (l.child k t) (λ c. some (l.text c))

module _ {l : PtreeLibrary} (w : PtreeLaws l) where
  pub child-put :
      (j k v : Text) (t : l.Ptree)
      → is_plain j ≡ true
      → is_plain k ≡ true
      → l.child j (l.put k v t)
        ≡ (if text_eq k j then some (with_text l v (l.child k t)) else l.child j t)
  child-put j k v t p q = rw (
    w.put_lem k v t q,
    w.child_lem j (l.node (l.text t) (put_key k (with_text l v) (l.children t))) p,
    w.children-node,
    w.child_lem j t p,
    w.child_lem k t q,
    find_key-put_key j k (with_text l v) (l.children t),
  )

  pub child-add_child :
      (j k : Text) (s t : l.Ptree)
      → is_plain j ≡ true
      → is_plain k ≡ true
      → l.child j (l.add_child k s t)
        ≡ (if is_set (l.child j t) then l.child j t else if text_eq k j then some s else none)
  child-add_child j k s t p q = rw (
    w.add_child_lem k s t q,
    w.child_lem j (l.node (l.text t) (l.children t ++ (k, s) ∷ [])) p,
    w.children-node,
    w.child_lem j t p,
    find_key-snoc j k s (l.children t),
  )

  pub child-empty : (j : Text) → is_plain j ≡ true → l.child j (empty_tree l) ≡ none
  unfolding find_key
  child-empty j p = rw (w.child_lem j (empty_tree l) p, w.children-node)

  text-with_text : (v : Text) (o : Option l.Ptree) → l.text (with_text l v o) ≡ v
  text-with_text v none = w.text-node v []
  text-with_text v (some t) = w.text-node v (l.children t)

  pub get_text-put :
      (j k v : Text) (t : l.Ptree)
      → is_plain j ≡ true
      → is_plain k ≡ true
      → get_text l j (l.put k v t) ≡ (if text_eq k j then some v else get_text l j t)
  unfolding get_text
  get_text-put j k v t p q = elim (Bool-cases (text_eq k j)) [
    | inl same ↦ rw (child-put j k v t p q, same, text-with_text v (l.child k t))
    | inr other ↦ rw (child-put j k v t p q, other)
  ]
