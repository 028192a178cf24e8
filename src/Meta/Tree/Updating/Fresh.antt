-- ===== src/Meta/Tree/Updating/Fresh.antt =====
-- The edits that create an object without members.
use libvineyard.Base.{
  ℕ, ◌^◌, ◌≡◌, refl, ap, ◌∙◌, Bool, true, false, ◌==◌, Option, some, List, [], ◌∷◌, ◌++◌,
  if◌then◌else◌, Text, codes, arith, append_assoc, append-nil, Bool-cases, inl, inr, length,
}
use libvineyard.Common.Ptree.{is_plain, find_key, PtreeLibrary, PtreeLaws, with_each, empty_tree}
use libvineyard.Common.Ptree.Fields.{text_eq→≡}
use libvineyard.Common.Ptree.Flat.{
  Pairs, has_key, fresh_after, leaves, flat, put-fresh, has_key-append, value_in, get_text-flat,
}
use libvineyard.Common.Status.{meta_tree_subtree_not_exists}
use libvineyard.Common.Uuid.{object_id_to_string}
use libvineyard.Meta.Paths.{text_eq, has_char}
use libvineyard.Meta.Links.{encode_value}
use libvineyard.Meta.Service.{Op, put_op}
use libvineyard.Meta.Tree.{
  Result, found, failed, ◌>>=◌, get_sub_tree, has_sub_tree, get_type, is_meta_placeholder,
  data_prefix,
}
use libvineyard.Meta.Tree.Persisting.Flat.{stores, or_left, or_right}
use libvineyard.Meta.Tree.Updating.{
  is_fixed, Diff, absent, first_diff, diff_value, diff_fields, diff_node, diff_against, finish_diff,
  diff_data_meta_tree, put_fields, generate_put_ops, put_data_ops,
}

-- The fields that are taken as they are.
abbrev pub free : Pairs → Pairs
free [] = []
free ((k, v) ∷ kvs) = if is_fixed k then free kvs else (k, v) ∷ free kvs

-- What is stored of a new object.
abbrev pub stored_fields : Pairs → Text → Text → Pairs
stored_fields kvs type instance_id =
    (codes "transient", codes "true") ∷ free kvs
    ++ (codes "typename", type) ∷ (codes "instance_id", instance_id) ∷ []

is_fixed-apart : (k j : Text) → is_fixed k ≡ false → is_fixed j ≡ true → text_eq k j ≡ false
is_fixed-apart k j free_ fixed = elim (Bool-cases (text_eq k j)) [
  | inl same ↦ absurd (ground (arith, ap is_fixed (text_eq→≡ k j same)))
  | inr other ↦ other
]

free-has_key : (j : Text) (kvs : Pairs) → is_fixed j ≡ true → has_key j (free kvs) ≡ false
free-has_key j [] fixed = refl
free-has_key j ((k, v) ∷ kvs) fixed = elim (Bool-cases (is_fixed k)) [
  | inl same ↦ rw same (free-has_key j kvs fixed)
  | inr other ↦ rw (other, is_fixed-apart k j other fixed) (free-has_key j kvs fixed)
]

module _ {l : PtreeLibrary} (w : PtreeLaws l) where
  find_key-value :
      (k v : Text) (kvs : Pairs)
      → value_in k kvs ≡ some v
      → find_key k (leaves l kvs) ≡ some (l.node v [])
  unfolding find_key value_in
  find_key-value k v [] h = absurd (ground arith)
  find_key-value k v ((j, x) ∷ kvs) h = ground (arith, find_key-value k v kvs)

  get_type-flat :
      (type : Text) (kvs : Pairs)
      → value_in (codes "typename") kvs ≡ some type
      → get_type l (flat l kvs) false ≡ found type
  unfolding get_type
  get_type-flat type kvs h = rw (
    get_type,
    w.find_lem (codes "typename") (flat l kvs),
    w.children-node [] (leaves l kvs),
    find_key-value (codes "typename") type kvs h,
    w.children-node type [],
    w.text-node,
  )

  two_fields :
      (type text : Text) (kvs : Pairs)
      → value_in (codes "typename") kvs ≡ some type
      → value_in (codes "instance_id") kvs ≡ some text
      → (length (leaves l kvs) == 1) ≡ false
  unfolding value_in text_eq
  two_fields type text [] t i = absurd (ground arith)
  two_fields type text ((k, v) ∷ []) t i = elim (Bool-cases (text_eq k (codes "typename"))) [
    | inl same ↦ absurd (ground (arith, text_eq→≡ k (codes "typename") same))
    | inr other ↦ absurd (ground arith)
  ]
  two_fields type text (a ∷ b ∷ kvs) t i = ground arith

  diff_fields-free :
      (f : l.Ptree → Text → Result (Diff l)) (before kvs : Pairs) (n : ℕ)
      → fresh_after before (free kvs) ≡ true
      → diff_fields l absent
          (with_each f (leaves l kvs))
          (record { diff = flat l before; instance_id = n })
        ≡ found (record { diff = flat l (before ++ free kvs); instance_id = n })
  unfolding diff_fields with_each diff_value
  diff_fields-free f before [] n h = rw (append-nil before)
  diff_fields-free f before ((k, v) ∷ kvs) n h = elim (Bool-cases (is_fixed k)) [
    | inl same ↦ rw same (diff_fields-free f before kvs n (ground arith))
    | inr other ↦
        rw
          (
            other,
            w.children-node v [],
            w.text-node v [],
            put-fresh w k v before (ground arith) (ground arith),
          )
          (diff_fields-free f (before ++ (k, v) ∷ []) kvs n (ground arith)
            ∙ rw (append_assoc before ((k, v) ∷ []) (free kvs)))
  ]

  put_field :
      (f : l.Ptree → Text → List Op) (is_there : Bool) (key_prefix k v : Text) (kvs : Pairs)
      → text_eq k (codes "id") ≡ false
      → put_fields l is_there key_prefix (with_each f (leaves l ((k, v) ∷ kvs)))
        ≡ put_op (key_prefix ++ k) (b'v' ∷ v) 0
          ∷ put_fields l is_there key_prefix (with_each f (leaves l kvs))
  unfolding put_fields with_each encode_value
  put_field f is_there key_prefix k v kvs other =
      rw (w.children-node v [], w.text-node v [], other) refl

  put_fields-stores :
      (f : l.Ptree → Text → List Op) (is_there : Bool) (key_prefix : Text) (kvs : Pairs)
      → has_key (codes "id") kvs ≡ false
      → put_fields l is_there key_prefix (with_each f (leaves l kvs)) ≡ stores key_prefix kvs
  unfolding put_fields with_each
  put_fields-stores f is_there key_prefix [] h = refl
  put_fields-stores f is_there key_prefix ((k, v) ∷ kvs) h =
      put_field f is_there key_prefix k v kvs (or_left _ (has_key (codes "id") kvs) h)
      ∙ ap (λ more. put_op (key_prefix ++ k) (b'v' ∷ v) 0 ∷ more)
          (put_fields-stores f is_there key_prefix kvs (or_right (text_eq k (codes "id")) _ h))

  -- The id is not stored.
  put_fields-flat :
      (f : l.Ptree → Text → List Op) (is_there : Bool) (key_prefix name : Text) (kvs rest : Pairs)
      → has_key (codes "id") kvs ≡ false
      → has_key (codes "id") rest ≡ false
      → put_fields l is_there key_prefix (with_each f (leaves l (kvs ++ (codes "id", name) ∷ rest)))
        ≡ stores key_prefix (kvs ++ rest)
  unfolding put_fields with_each text_eq
  put_fields-flat f is_there key_prefix name [] rest h g =
      rw (w.children-node name []) (put_fields-stores f is_there key_prefix rest g)
  put_fields-flat f is_there key_prefix name ((k, v) ∷ kvs) rest h g =
      put_field f is_there key_prefix k v (kvs ++ (codes "id", name) ∷ rest)
        (or_left _ (has_key (codes "id") kvs) h)
      ∙ ap (λ more. put_op (key_prefix ++ k) (b'v' ∷ v) 0 ∷ more)
          (put_fields-flat f is_there key_prefix name kvs rest
            (or_right (text_eq k (codes "id")) _ h) g)

  named :
      (name type number : Text) (kvs : Pairs)
      → l.put (codes "instance_id") number (
          l.put
            (codes "typename")
            type
            (l.put (codes "id") name (flat l ((codes "transient", codes "true") ∷ free kvs))))
        ≡ flat l (
            (codes "transient", codes "true") ∷ free kvs
            ++ (codes "id", name) ∷ (codes "typename", type) ∷ (codes "instance_id", number) ∷ [])
  unfolding is_plain has_char text_eq
  named name type number kvs =
      let ps : Pairs = (codes "transient", codes "true") ∷ free kvs in
      let qs : Pairs = ps ++ (codes "id", name) ∷ [] in
      let rs : Pairs = qs ++ (codes "typename", type) ∷ [] in
      rw
        (
          put-fresh w (codes "id") name ps refl (free-has_key (codes "id") kvs refl),
          put-fresh w (codes "typename") type qs refl (
              has_key-append (codes "typename") ps ((codes "id", name) ∷ [])
              ∙ rw (free-has_key (codes "typename") kvs refl) refl),
          put-fresh w (codes "instance_id") number rs refl (
              has_key-append (codes "instance_id") qs ((codes "typename", type) ∷ [])
              ∙ rw
                  (
                    has_key-append (codes "instance_id") ps ((codes "id", name) ∷ []),
                    free-has_key (codes "instance_id") kvs refl,
                  )
                  refl),
        )
        (ap (flat l) (
          append_assoc qs ((codes "typename", type) ∷ []) ((codes "instance_id", number) ∷ [])
          ∙ append_assoc ps ((codes "id", name) ∷ []) _))

  -- The three fields that end a new object.
  finish-flat :
      (name type : Text) (kvs all : Pairs) (n : ℕ)
      → value_in (codes "typename") all ≡ some type
      → finish_diff l absent name
          (flat l all)
          (record { diff = flat l ((codes "transient", codes "true") ∷ free kvs); instance_id = n })
        ≡ found (record {
          diff = flat l (
              (codes "transient", codes "true") ∷ free kvs
              ++ (codes "id", name)
                ∷ (codes "typename", type)
                ∷ (codes "instance_id", l.of_number n)
                ∷ []);
          instance_id = n;
        })
  unfolding finish_diff
  finish-flat name type kvs all n t =
      rw
        (
          w.children-node [] (leaves l ((codes "transient", codes "true") ∷ free kvs)),
          get_type-flat type all t,
        )
        (ap (λ d. found (record { diff = d; instance_id = n }))
          (named name type (l.of_number n) kvs))

  first_flat : first_diff l absent ≡ flat l ((codes "transient", codes "true") ∷ [])
  unfolding is_plain has_char
  first_flat =
      ap (λ v. l.put (codes "transient") v (empty_tree l)) (w.bool_texts true)
      ∙ put-fresh w (codes "transient") (codes "true") [] refl refl

  diff_data_meta_tree-fresh :
      (cast : Text → Option ℕ) (tree : l.Ptree) (name type text : Text) (kvs : Pairs) (n : ℕ)
      → get_sub_tree l tree data_prefix name ≡ failed meta_tree_subtree_not_exists
      → fresh_after ((codes "transient", codes "true") ∷ []) (free kvs) ≡ true
      → value_in (codes "typename") kvs ≡ some type
      → value_in (codes "instance_id") kvs ≡ some text
      → l.to_number (2 ^ 64) text ≡ some n
      → diff_data_meta_tree l cast tree (flat l kvs) name
        ≡ found (record {
          diff = flat l (
              (codes "transient", codes "true") ∷ free kvs
              ++ (codes "id", name)
                ∷ (codes "typename", type)
                ∷ (codes "instance_id", l.of_number n)
                ∷ []);
          instance_id = n;
        })
  unfolding diff_data_meta_tree diff_node diff_against is_meta_placeholder is_plain has_char
  diff_data_meta_tree-fresh cast tree name type text kvs n e f t i number =
      let kids = with_each (l.fold (diff_node l cast tree)) (leaves l kvs) in
      let finish : Diff l → Result (Diff l) = λ d. finish_diff l absent name (flat l kvs) d in
      rw
        (
          w.fold_lem (diff_node l cast tree) (flat l kvs),
          e,
          w.children-node [] (leaves l kvs),
          two_fields type text kvs t i,
          get_text-flat w (codes "instance_id") kvs refl,
          i,
          number,
        )
        (ap (λ t. diff_fields l absent kids (record { diff = t; instance_id = n }) >>= finish)
            first_flat
          ∙ (ap (λ r. r >>= finish)
                (diff_fields-free _ ((codes "transient", codes "true") ∷ []) kvs n f)
              ∙ finish-flat name type kvs kvs n t))

  -- Creating an object without members, which is not stored yet and whose free fields, those other than
  -- "id", "typename" and "instance_id", have different plain names other than "transient", stores it as
  -- transient, with each of these fields as it is, and its type and its instance at the end; the id is
  -- not stored, and the instance is the one that the client names.
  pub put_data_ops-fresh :
      (cast : Text → Option ℕ) (tree : l.Ptree) (id : ℕ) (type text : Text) (kvs : Pairs) (n : ℕ)
      → get_sub_tree l tree data_prefix (object_id_to_string id)
        ≡ failed meta_tree_subtree_not_exists
      → fresh_after ((codes "transient", codes "true") ∷ []) (free kvs) ≡ true
      → value_in (codes "typename") kvs ≡ some type
      → value_in (codes "instance_id") kvs ≡ some text
      → l.to_number (2 ^ 64) text ≡ some n
      → put_data_ops l cast tree id (flat l kvs)
        ≡ found (
          stores
              (codes "data." ++ object_id_to_string id ++ codes ".")
              (stored_fields kvs type (l.of_number n)),
          n,
        )
  unfolding put_data_ops generate_put_ops text_eq
  put_data_ops-fresh cast tree id type text kvs n e f t i number =
      let name = object_id_to_string id in
      rw
        (
          diff_data_meta_tree-fresh cast tree name type text kvs n e f t i number,
          w.fold_lem,
          w.children-node,
          put_fields-flat _ (has_sub_tree l tree data_prefix name)
              (codes "data." ++ name ++ codes ".") name
              ((codes "transient", codes "true") ∷ free kvs)
              ((codes "typename", type) ∷ (codes "instance_id", l.of_number n) ∷ [])
              (free-has_key (codes "id") kvs refl) refl,
        )
        refl
