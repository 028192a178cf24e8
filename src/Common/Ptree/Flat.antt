-- ===== src/Common/Ptree/Flat.antt =====
-- Trees whose children are leaves, as lists of keys and texts.
use libvineyard.Base.{
  ◌≡◌, refl, sym, ap, ◌∙◌, Bool, true, false, not, ◌&&◌, ◌||◌, Option, none, some, List, [], ◌∷◌,
  ◌++◌, if◌then◌else◌, Text, arith, Bool-cases, inl, inr, chain,
}
use libvineyard.Common.Ptree.{is_plain, find_key, put_key, PtreeLibrary, PtreeLaws, with_text}
use libvineyard.Common.Ptree.Fields.{get_text}
use libvineyard.Meta.Paths.{text_eq}

abbrev pub Pairs : Type 0
Pairs = List (Text × Text)

-- Whether the key is one of the list's.
abbrev pub has_key : Text → Pairs → Bool
has_key k [] = false
has_key k ((j, v) ∷ kvs) = text_eq j k || has_key k kvs

-- Plain keys, none of them twice or among those before.
abbrev pub fresh_after : Pairs → Pairs → Bool
fresh_after before [] = true
fresh_after before ((k, v) ∷ kvs) =
    is_plain k && (not (has_key k before) && fresh_after (before ++ (k, v) ∷ []) kvs)

abbrev pub leaves : (l : PtreeLibrary) → Pairs → List (Text × l.Ptree)
leaves l [] = []
leaves l ((k, v) ∷ kvs) = (k, l.node v []) ∷ leaves l kvs

abbrev pub flat : (l : PtreeLibrary) → Pairs → l.Ptree
flat l kvs = l.node [] (leaves l kvs)

pub leaves-append :
    (l : PtreeLibrary) (kvs rest : Pairs) → leaves l (kvs ++ rest) ≡ leaves l kvs ++ leaves l rest
leaves-append l [] rest = refl
leaves-append l ((k, v) ∷ kvs) rest =
    ap (λ more. (k, l.node v []) ∷ more) (leaves-append l kvs rest)

pub has_key-append :
    (k : Text) (kvs rest : Pairs) → has_key k (kvs ++ rest) ≡ (has_key k kvs || has_key k rest)
has_key-append k [] rest = refl
has_key-append k ((j, v) ∷ kvs) rest = ground (arith, has_key-append k kvs rest)

put_key-fresh :
    (l : PtreeLibrary) (k v : Text) (kvs : Pairs)
    → has_key k kvs ≡ false
    → put_key k (with_text l v) (leaves l kvs) ≡ leaves l (kvs ++ (k, v) ∷ [])
unfolding put_key
put_key-fresh l k v [] h = refl
put_key-fresh l k v ((j, x) ∷ kvs) h = ground (arith, put_key-fresh l k v kvs)

module _ {l : PtreeLibrary} (w : PtreeLaws l) where
  -- A new key goes to the end.
  pub put-fresh :
      (k v : Text) (kvs : Pairs)
      → is_plain k ≡ true
      → has_key k kvs ≡ false
      → l.put k v (flat l kvs) ≡ flat l (kvs ++ (k, v) ∷ [])
  put-fresh k v kvs p h =
      rw (w.put_lem k v (flat l kvs) p, w.text-node, w.children-node, put_key-fresh l k v kvs h)

  -- The text under a key.
  find_key-leaves :
      (k : Text) (kvs : Pairs) → has_key k kvs ≡ false → find_key k (leaves l kvs) ≡ none
  unfolding find_key
  find_key-leaves k [] h = refl
  find_key-leaves k ((j, v) ∷ kvs) h = ground (arith, find_key-leaves k kvs)

-- Whether keys are fresh depends on the keys before them alone.
pub fresh_after-keys :
    (before other kvs : Pairs)
    → ((j : Text) → has_key j before ≡ has_key j other)
    → fresh_after before kvs ≡ fresh_after other kvs
fresh_after-keys before other [] h = refl
fresh_after-keys before other ((k, v) ∷ kvs) h = ground (
  arith,
  h k,
  fresh_after-keys (before ++ (k, v) ∷ []) (other ++ (k, v) ∷ []) kvs (λ j.
      has_key-append j before _
      ∙ (ap (λ b. b || (text_eq k j || false)) (h j) ∙ sym (has_key-append j other _))),
)

-- The value of a key plays no part.
pub fresh_after-value :
    (before kvs : Pairs) (k v x : Text)
    → fresh_after (before ++ (k, v) ∷ []) kvs ≡ fresh_after (before ++ (k, x) ∷ []) kvs
fresh_after-value before kvs k v x =
    fresh_after-keys (before ++ (k, v) ∷ []) (before ++ (k, x) ∷ []) kvs
      (λ j. has_key-append j before _ ∙ sym (has_key-append j before _))

unfoldable pub value_in : Text → Pairs → Option Text
value_in k [] = none
value_in k ((j, v) ∷ kvs) = let rest = value_in k kvs in if text_eq j k then some v else rest

pub value_in-append :
    (k : Text) (kvs : Pairs) (j v : Text)
    → has_key k kvs ≡ false
    → value_in k (kvs ++ (j, v) ∷ []) ≡ (if text_eq j k then some v else none)
unfolding value_in
value_in-append k [] j v h = refl
value_in-append k ((i, x) ∷ kvs) j v h = ground (arith, value_in-append k kvs j v)

pub value_in-append_found :
    (k v : Text) (kvs rest : Pairs) → value_in k kvs ≡ some v → value_in k (kvs ++ rest) ≡ some v
unfolding value_in
value_in-append_found k v [] rest h = absurd (ground arith)
value_in-append_found k v ((i, x) ∷ kvs) rest h = ground (arith, value_in-append_found k v kvs rest)

module _ {l : PtreeLibrary} (w : PtreeLaws l) where
  find_key-value_in :
      (k : Text) (kvs : Pairs)
      → chain (find_key k (leaves l kvs)) (λ c. some (l.text c)) ≡ value_in k kvs
  unfolding find_key value_in
  find_key-value_in k [] = refl
  find_key-value_in k ((j, v) ∷ kvs) = elim (Bool-cases (text_eq j k)) [
    | inl same ↦ rw (same, w.text-node v [])
    | inr other ↦ rw other (find_key-value_in k kvs)
  ]

  pub get_text-flat :
      (k : Text) (kvs : Pairs) → is_plain k ≡ true → get_text l k (flat l kvs) ≡ value_in k kvs
  unfolding get_text
  get_text-flat k kvs p =
      rw (w.child_lem k (flat l kvs) p, w.children-node) (find_key-value_in k kvs)
