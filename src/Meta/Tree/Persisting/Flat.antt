-- ===== src/Meta/Tree/Persisting/Flat.antt =====
-- Making an object without members persistent.
use libvineyard.Base.{
  ℕ, suc, ◌<◌, ◌^◌, ◌≡◌, refl, sym, ap, ◌∙◌, Bool, true, false, ◌||◌, some, List, [], ◌∷◌, ◌++◌,
  if◌then◌else◌, is_empty, Text, codes, arith, append_assoc, append-nil, Bool-cases, inl, inr,
}
use libvineyard.Common.Ptree.{is_plain, PtreeLibrary, PtreeLaws, with_each}
use libvineyard.Common.Ptree.Fields.{text_eq→≡}
use libvineyard.Common.Ptree.Flat.{
  Pairs, has_key, fresh_after, leaves, flat, put-fresh, fresh_after-value, has_key-append, value_in,
  value_in-append, value_in-append_found, get_text-flat,
}
use libvineyard.Common.Uuid.{object_id_to_string, is_blob}
use libvineyard.Common.Uuid.Laws.{object_id_from_string-to_string}
use libvineyard.Meta.Paths.{text_eq, has_char}
use libvineyard.Meta.Links.{encode_value}
use libvineyard.Meta.Service.{Op, put_op}
use libvineyard.Meta.Tree.{Result, found, get_sub_tree, data_prefix}
use libvineyard.Meta.Tree.Reading.Flat.{tagged, get_data-flat}
use libvineyard.Meta.Tree.Persisting.{
  persist_fields, persist_node, persist_meta_tree, persist_ops_of, generate_persist_ops,
  persist_ops,
}

-- The fields with "transient" switched off.
abbrev pub switched : Pairs → Pairs
switched [] = []
switched ((k, v) ∷ kvs) =
    (k, (if text_eq k (codes "transient") then codes "false" else v)) ∷ switched kvs

-- The edits that store the fields of an object.
abbrev pub stores : Text → Pairs → List Op
stores key_prefix [] = []
stores key_prefix ((k, v) ∷ kvs) = put_op (key_prefix ++ k) (b'v' ∷ v) 0 ∷ stores key_prefix kvs

pub or_left : (a b : Bool) → (a || b) ≡ false → a ≡ false
or_left a b h = ground arith

pub or_right : (a b : Bool) → (a || b) ≡ false → b ≡ false
or_right a b h = ground arith

module _ {l : PtreeLibrary} (w : PtreeLaws l) where
  switch_put :
      (k v : Text) (t : l.Ptree)
      → (if text_eq k (codes "transient")
          then l.put (codes "transient") (l.of_bool false) t
          else l.put k v t)
        ≡ l.put k (if text_eq k (codes "transient") then codes "false" else v) t
  switch_put k v t = elim (Bool-cases (text_eq k (codes "transient"))) [
    | inl same ↦ rw (same, w.bool_texts false, text_eq→≡ k (codes "transient") same)
    | inr other ↦ rw other
  ]

  persist_fields-flat :
      (f : l.Ptree → Result l.Ptree) (before kvs : Pairs)
      → fresh_after before kvs ≡ true
      → persist_fields l (with_each f (leaves l kvs)) (flat l before)
        ≡ found (flat l (before ++ switched kvs))
  unfolding persist_fields with_each
  persist_fields-flat f before [] h = rw (append-nil before)
  persist_fields-flat f before ((k, v) ∷ kvs) h =
      let x : Text = if text_eq k (codes "transient") then codes "false" else v in
      rw
        (
          w.children-node v [],
          w.text-node v [],
          switch_put k v (flat l before),
          persist_fields,
          put-fresh w k x before (ground arith) (ground arith),
        )
        (persist_fields-flat f (before ++ (k, x) ∷ []) kvs
            (sym (fresh_after-value before kvs k v x) ∙ ground arith)
          ∙ rw (append_assoc before ((k, x) ∷ []) (switched kvs)))

  switched-append :
      (kvs : Pairs) (name : Text)
      → switched (kvs ++ (codes "id", name) ∷ []) ≡ switched kvs ++ (codes "id", name) ∷ []
  unfolding text_eq
  switched-append [] name = refl
  switched-append ((k, v) ∷ kvs) name =
      ap (λ more. (k, (if text_eq k (codes "transient") then codes "false" else v)) ∷ more)
        (switched-append kvs name)

  switched-has_key : (j : Text) (kvs : Pairs) → has_key j (switched kvs) ≡ has_key j kvs
  switched-has_key j [] = refl
  switched-has_key j ((k, v) ∷ kvs) = ap (λ b. text_eq k j || b) (switched-has_key j kvs)

  persist_ops_of-flat :
      (f : l.Ptree → Text → List Op) (key_prefix name : Text) (kvs : Pairs)
      → has_key (codes "id") kvs ≡ false
      → persist_ops_of l key_prefix (with_each f (leaves l (kvs ++ (codes "id", name) ∷ [])))
        ≡ stores key_prefix kvs
  unfolding persist_ops_of with_each text_eq encode_value
  persist_ops_of-flat f key_prefix name [] h = rw (w.children-node name [])
  persist_ops_of-flat f key_prefix name ((k, v) ∷ kvs) h =
      rw
        (
          w.children-node v [],
          w.text-node v [],
          or_left (text_eq k (codes "id")) (has_key (codes "id") kvs) h,
        )
        (ap (λ more. put_op (key_prefix ++ k) (b'v' ∷ v) 0 ∷ more)
          (persist_ops_of-flat f key_prefix name kvs
            (or_right (text_eq k (codes "id")) (has_key (codes "id") kvs) h)))

  fresh_after-snoc :
      (k v : Text) (before kvs : Pairs)
      → is_plain k ≡ true
      → has_key k before ≡ false
      → has_key k kvs ≡ false
      → fresh_after before kvs ≡ true
      → fresh_after before (kvs ++ (k, v) ∷ []) ≡ true
  fresh_after-snoc k v before [] p b h f = ground arith
  fresh_after-snoc k v before ((j, x) ∷ kvs) p b h f = ground (
    arith,
    fresh_after-snoc k v (before ++ (j, x) ∷ []) kvs p,
    has_key-append k before ((j, x) ∷ []),
    has_key-append j before [],
  )

  to_bool-true : l.to_bool (codes "true") ≡ some true
  to_bool-true = ap l.to_bool (sym (w.bool_texts true)) ∙ w.bool_roundtrip true

  persist_meta_tree-flat :
      (id : ℕ) (kvs : Pairs)
      → fresh_after [] kvs ≡ true
      → has_key (codes "id") kvs ≡ false
      → value_in (codes "transient") kvs ≡ some (codes "true")
      → is_blob id ≡ false
      → id < 2 ^ 64
      → persist_meta_tree l (flat l (kvs ++ (codes "id", object_id_to_string id) ∷ []))
        ≡ found (flat l (switched kvs ++ (codes "id", object_id_to_string id) ∷ []))
  unfolding persist_meta_tree persist_node is_plain has_char text_eq
  persist_meta_tree-flat id kvs f h t b fits =
      let name = object_id_to_string id in
      let all = kvs ++ (codes "id", name) ∷ [] in
      rw
        (
          w.fold_lem (persist_node l) (flat l all),
          get_text-flat w (codes "transient") all refl,
          value_in-append_found (codes "transient") (codes "true") kvs ((codes "id", name) ∷ []) t,
          get_text-flat w (codes "id") all refl,
          value_in-append (codes "id") kvs (codes "id") name h,
        )
        (rw (
          to_bool-true,
          object_id_from_string-to_string id fits,
          b,
          w.children-node [] (leaves l all),
          persist_fields-flat (l.fold (persist_node l)) [] all
              (fresh_after-snoc (codes "id") name [] kvs refl refl h f),
          switched-append kvs name,
        ))

  leaves_snoc : (kvs : Pairs) (k v : Text) → is_empty (leaves l (kvs ++ (k, v) ∷ [])) ≡ false
  leaves_snoc [] k v = refl
  leaves_snoc ((j, x) ∷ kvs) k v = refl

  -- Making a transient object without members persistent, which is no blob and whose fields have
  -- different plain names other than "id", stores each of its fields again as it is, but for "transient",
  -- which becomes false.
  pub persist_ops-flat :
      (fuel : ℕ) (tree t : l.Ptree) (id : ℕ) (kvs : Pairs)
      → get_sub_tree l tree data_prefix (object_id_to_string id) ≡ found t
      → l.children t ≡ leaves l (tagged kvs)
      → fresh_after [] kvs ≡ true
      → has_key (codes "id") kvs ≡ false
      → value_in (codes "transient") kvs ≡ some (codes "true")
      → is_blob id ≡ false
      → id < 2 ^ 64
      → persist_ops l (suc fuel) tree id
        ≡ some
            (found (stores (codes "data." ++ object_id_to_string id ++ codes ".") (switched kvs)))
  unfolding persist_ops generate_persist_ops
  persist_ops-flat fuel tree t id kvs e c f h tr b fits = rw (
    get_data-flat w fuel tree t (object_id_to_string id) kvs e c f h,
    persist_meta_tree-flat id kvs f h tr b fits,
    w.fold_lem,
    w.children-node,
    leaves_snoc (switched kvs) (codes "id") (object_id_to_string id),
    persist_ops_of-flat _ (codes "data." ++ object_id_to_string id ++ codes ".")
        (object_id_to_string id) (switched kvs) (switched-has_key (codes "id") kvs ∙ h),
  )
