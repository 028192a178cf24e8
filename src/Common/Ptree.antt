-- ===== src/Common/Ptree.antt =====
-- src/common/util/boost.h: the `boost::property_tree` that metadata and messages are made of. It is a
-- parameter, with the documented behaviour of the operations that the code uses.
pub mod Fields
pub mod Decimal
pub mod Flat
pub mod Concrete
use libvineyard.Base.{
  ℕ, ◌<◌, ◌≤◌, ◌^◌, ◌≡◌, Bool, true, false, not, ◌&&◌, Option, none, some, List, [], ◌∷◌, ◌++◌,
  if◌then◌else◌, Text, codes, is_empty, All, chain,
}
use libvineyard.Meta.Paths.{text_eq, has_char}

-- A path of one part.
unfoldable pub is_plain : Text → Bool
is_plain k = not (is_empty k) && not (has_char b'.' k)

-- The children in order; two may have the same key.
module _ {ℓ} {A : Type ℓ} where
  unfoldable pub find_key : Text → List (Text × A) → Option A
  find_key k [] = none
  find_key k ((j, a) ∷ kids) = let rest = find_key k kids in if text_eq j k then some a else rest

  -- The first child of the key is changed, or a new one goes to the end.
  unfoldable pub put_key : Text → (Option A → A) → List (Text × A) → List (Text × A)
  put_key k f [] = (k, f none) ∷ []
  put_key k f ((j, a) ∷ kids) =
      let rest = put_key k f kids in if text_eq j k then (j, f (some a)) ∷ kids else (j, a) ∷ rest

  unfoldable pub erase_all : Text → List (Text × A) → List (Text × A)
  erase_all k [] = []
  erase_all k ((j, a) ∷ kids) =
      let rest = erase_all k kids in if text_eq j k then rest else (j, a) ∷ rest

-- Every child with what a recursion answers for it.
unfoldable pub with_each : {P A : Type 0} → (P → A) → List (Text × P) → List (Text × P × A)
with_each f [] = []
with_each f ((k, p) ∷ kids) = (k, p, f p) ∷ with_each f kids

-- A node has a text and children. `put`, `add_child` and `child`, which is `get_child_optional`, take
-- a path whose parts have dots between them; `find` and `erase` take a key. `fold` is recursion over
-- a tree, which is finite. The translators of numbers and of truth values are those of `put<T>` and
-- `get<T>`, where none is the exception `ptree_bad_data`; a number is read
-- into a type whose values lie below the first argument.
pub record PtreeLibrary : Type 1 where
  pub Ptree : Type 0
  pub node : Text → List (Text × Ptree) → Ptree
  pub text : Ptree → Text
  pub children : Ptree → List (Text × Ptree)
  pub put : Text → Text → Ptree → Ptree
  pub add_child : Text → Ptree → Ptree → Ptree
  pub child : Text → Ptree → Option Ptree
  pub find : Text → Ptree → Option Ptree
  pub erase : Text → Ptree → Ptree
  pub fold : {A : Type 0} → (Ptree → List (Text × Ptree × A) → A) → Ptree → A
  pub of_number : ℕ → Text
  pub to_number : ℕ → Text → Option ℕ
  pub of_bool : Bool → Text
  pub to_bool : Text → Option Bool

-- `ptree()`
abbrev pub empty_tree : (l : PtreeLibrary) → l.Ptree
empty_tree l = l.node [] []

-- The tree with another text, or a new leaf with it.
abbrev pub with_text : (l : PtreeLibrary) → Text → Option l.Ptree → l.Ptree
with_text l v none = l.node v []
with_text l v (some t) = l.node v (l.children t)

-- What the documentation of the library says of the operations.
pub record PtreeLaws (l : PtreeLibrary) : Type 1 where
  pub text-node : (v : Text) (kids : List (Text × l.Ptree)) → l.text (l.node v kids) ≡ v
  pub children-node : (v : Text) (kids : List (Text × l.Ptree)) → l.children (l.node v kids) ≡ kids
  pub put_lem :
      (k v : Text) (t : l.Ptree)
      → is_plain k ≡ true
      → l.put k v t ≡ l.node (l.text t) (put_key k (with_text l v) (l.children t))
  pub add_child_lem :
      (k : Text) (s t : l.Ptree)
      → is_plain k ≡ true
      → l.add_child k s t ≡ l.node (l.text t) (l.children t ++ (k, s) ∷ [])
  pub child_lem :
      (k : Text) (t : l.Ptree) → is_plain k ≡ true → l.child k t ≡ find_key k (l.children t)
  pub child-path :
      (p k : Text) (t : l.Ptree)
      → is_plain p ≡ true
      → is_plain k ≡ true
      → l.child (p ++ b'.' ∷ k) t ≡ chain (l.child p t) (l.child k)
  pub find_lem : (k : Text) (t : l.Ptree) → l.find k t ≡ find_key k (l.children t)
  pub erase_lem :
      (k : Text) (t : l.Ptree) → l.erase k t ≡ l.node (l.text t) (erase_all k (l.children t))
  pub fold_lem :
      {A : Type 0} (f : l.Ptree → List (Text × l.Ptree × A) → A) (t : l.Ptree)
      → l.fold f t ≡ f t (with_each (l.fold f) (l.children t))
  pub induction :
      (P : l.Ptree → Type 0)
      → ((t : l.Ptree) → All (λ kid. P kid.1) (l.children t) → P t)
      → (t : l.Ptree) → P t
  pub number_roundtrip :
      (limit n : ℕ) → n < limit → limit ≤ 2 ^ 64 → l.to_number limit (l.of_number n) ≡ some n
  pub bool_roundtrip : (b : Bool) → l.to_bool (l.of_bool b) ≡ some b
  pub bool_texts : (b : Bool) → l.of_bool b ≡ (if b then codes "true" else codes "false")
