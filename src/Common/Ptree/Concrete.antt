-- ===== src/Common/Ptree/Concrete.antt =====
-- A concrete property tree, on which the definitions run.
use libvineyard.Base.{
  ℕ, ◌<◌, ◌≤◌, ◌^◌, ◌≡◌, refl, ap, Bool, true, false, Option, none, some, List, [], ◌∷◌, ◌++◌,
  if◌then◌else◌, Text, codes, All, chain, arith, ltb, Option-cases, inl, inr,
}
use mathlib.Core.Path.{fun_ext}
use libvineyard.Meta.Paths.{text_eq, has_char, split_dots, to_string}
use libvineyard.Common.Ptree.Decimal.{digits, digits-decimal}
use libvineyard.Common.Ptree.{
  is_plain, find_key, put_key, erase_all, with_each, PtreeLibrary, PtreeLaws,
}

mutual
  pub data Node : Type 0 where
    branch : Text → Kids → Node

  pub data Kids : Type 0 where
    end : Kids
    kid : Text → Node → Kids → Kids

abbrev kids_of : List (Text × Node) → Kids
kids_of [] = end
kids_of ((k, n) ∷ ns) = kid k n (kids_of ns)

abbrev list_of : Kids → List (Text × Node)
list_of end = []
list_of (kid k n ks) = (k, n) ∷ list_of ks

list_of-kids_of : (ns : List (Text × Node)) → list_of (kids_of ns) ≡ ns
list_of-kids_of [] = refl
list_of-kids_of ((k, n) ∷ ns) = ap (λ rest. (k, n) ∷ rest) (list_of-kids_of ns)

abbrev make : Text → List (Text × Node) → Node
make v ns = branch v (kids_of ns)

abbrev text : Node → Text
text (branch v ks) = v

abbrev below : Node → List (Text × Node)
below (branch v ks) = list_of ks

-- Down a path, from its first key and the others.
walk : Text → List Text → Node → Option Node
walk k [] t = find_key k (below t)
walk k (j ∷ js) t = chain (find_key k (below t)) (walk j js)

abbrev child_of : Text → Node → Option Node
child_of path t = let (k, ks) = split_dots path in walk k ks t

abbrev change : Text → Option Node → Node
change v none = make v []
change v (some t) = make v (below t)

put_in : Text → List Text → Text → Option Node → Node
put_in k [] v none = make [] ((k, make v []) ∷ [])
put_in k [] v (some t) = make (text t) (put_key k (change v) (below t))
put_in k (j ∷ js) v none = make [] ((k, put_in j js v none) ∷ [])
put_in k (j ∷ js) v (some t) = make (text t) (put_key k (put_in j js v) (below t))

abbrev put_at : Text → Text → Node → Node
put_at path v t = let (k, ks) = split_dots path in put_in k ks v (some t)

abbrev add : Text → Node → Node → Node
add k s t = make (text t) (below t ++ (k, s) ∷ [])

mutual
  fold_node : {A : Type 0} → (Node → List (Text × Node × A) → A) → Node → A
  fold_node f (branch v ks) = f (branch v ks) (fold_kids f ks)

  fold_kids : {A : Type 0} → (Node → List (Text × Node × A) → A) → Kids → List (Text × Node × A)
  fold_kids f end = []
  fold_kids f (kid k n ks) = (k, n, fold_node f n) ∷ fold_kids f ks

below_limit : ℕ → Text → Option ℕ
below_limit limit s = chain (digits 0 s) (λ n. if ltb n limit then some n else none)

below_limit-to_string :
    (limit n : ℕ) → n < limit → limit ≤ 2 ^ 64 → below_limit limit (to_string n) ≡ some n
unfolding below_limit
below_limit-to_string limit n h g = rw (digits-decimal 20 n (omega arith)) (ground arith)

bool_text : Bool → Text
bool_text true = codes "true"
bool_text false = codes "false"

text_bool : Text → Option Bool
text_bool s =
    if text_eq s (codes "true")
    then some true
    else if text_eq s (codes "false")
    then some false
    else none

unfoldable pub concrete : PtreeLibrary
unfolding walk put_in fold_node below_limit digits bool_text text_bool
concrete = record {
  Ptree = Node;
  node = make;
  text = text;
  children = below;
  put = put_at;
  add_child = add;
  child = child_of;
  find = λ k t. find_key k (below t);
  erase = λ k t. make (text t) (erase_all k (below t));
  fold = fold_node;
  of_number = to_string;
  to_number = below_limit;
  of_bool = bool_text;
  to_bool = text_bool;
}

plain-no_dot : (k : Text) → is_plain k ≡ true → has_char b'.' k ≡ false
unfolding is_plain
plain-no_dot k h = ground arith

split_dots-no_dot : (k : Text) → has_char b'.' k ≡ false → split_dots k ≡ (k, [])
unfolding split_dots has_char
split_dots-no_dot [] h = refl
split_dots-no_dot (c ∷ k) h = ground (arith, split_dots-no_dot k)

split_dots-path :
    (p k : Text)
    → has_char b'.' p ≡ false
    → has_char b'.' k ≡ false
    → split_dots (p ++ b'.' ∷ k) ≡ (p, k ∷ [])
unfolding split_dots has_char
split_dots-path [] k h g = rw (split_dots-no_dot k g)
split_dots-path (c ∷ p) k h g = ground (arith, split_dots-path p k)

below-make : (v : Text) (ns : List (Text × Node)) → below (make v ns) ≡ ns
below-make v ns = list_of-kids_of ns

mutual
  unfolding with_each fold_node

  fold_kids-each :
      {A : Type 0} (f : Node → List (Text × Node × A) → A) (ks : Kids)
      → fold_kids f ks ≡ with_each (fold_node f) (list_of ks)
  fold_kids-each f end = refl
  fold_kids-each f (kid k n ks) = ap (λ rest. (k, n, fold_node f n) ∷ rest) (fold_kids-each f ks)

fold_node-each :
    {A : Type 0} (f : Node → List (Text × Node × A) → A) (t : Node)
    → fold_node f t ≡ f t (with_each (fold_node f) (below t))
unfolding fold_node
fold_node-each f (branch v ks) = ap (f (branch v ks)) (fold_kids-each f ks)

mutual
  Node-induction :
      (P : Node → Type 0) → ((t : Node) → All (λ kid. P kid.1) (below t) → P t) → (t : Node) → P t
  Node-induction P step (branch v ks) = step (branch v ks) (Kids-induction P step ks)

  Kids-induction :
      (P : Node → Type 0)
      → ((t : Node) → All (λ kid. P kid.1) (below t) → P t)
      → (ks : Kids) → All (λ kid. P kid.1) (list_of ks)
  Kids-induction P step end = tt
  Kids-induction P step (kid k n ks) = (Node-induction P step n, Kids-induction P step ks)

text_bool-bool_text : (b : Bool) → text_bool (bool_text b) ≡ some b
unfolding text_bool bool_text text_eq
text_bool-bool_text true = refl
text_bool-bool_text false = refl

bool_texts : (b : Bool) → bool_text b ≡ (if b then codes "true" else codes "false")
unfolding bool_text
bool_texts true = refl
bool_texts false = refl

walk-path :
    (p k : Text)
    → has_char b'.' k ≡ false
    → (t : Node) → walk p (k ∷ []) t ≡ chain (walk p [] t) (child_of k)
unfolding walk
walk-path p k h t = elim (Option-cases (find_key p (below t))) [
  | inl e ↦ rw e
  | inr (u, e) ↦ rw (e, split_dots-no_dot k h)
]

pub concrete_laws : PtreeLaws concrete
unfolding concrete put_in walk
concrete_laws = record {
  text-node = λ v ns. refl;
  children-node = below-make;
  put_lem = λ k v t h. rw (split_dots-no_dot k (plain-no_dot k h)) (
      ap (λ f. make (text t) (put_key k f (below t)))
        (fun_ext (λ o. elim o [ none ↦ refl | some u ↦ refl ])));
  add_child_lem = λ k s t h. refl;
  child_lem = λ k t h. rw (split_dots-no_dot k (plain-no_dot k h));
  child-path = λ p k t h g.
      rw
        (
          split_dots-path p k (plain-no_dot p h) (plain-no_dot k g),
          split_dots-no_dot p (plain-no_dot p h),
        )
        (walk-path p k (plain-no_dot k g) t);
  find_lem = λ k t. refl;
  erase_lem = λ k t. refl;
  fold_lem = fold_node-each;
  induction = Node-induction;
  number_roundtrip = below_limit-to_string;
  bool_roundtrip = text_bool-bool_text;
  bool_texts = λ b. bool_texts b;
}
