-- ===== src/Meta/Service/Blobs.antt =====
-- Which blobs an update deletes.
use libvineyard.Base.{
  ℕ, ◌≡◌, inl, inr, Bool, true, false, Option, none, some, List, [], ◌∷◌, ◌==◌, Bool-cases,
  List-cases, Text, codes, arith, subst, chain_result, ==_iff,
}
use libvineyard.Base.Multimap.{Multimap, member, has_pair, equal_range, member-insert}
use libvineyard.Common.Uuid.{invalid_object_id, is_blob}
use libvineyard.Meta.Dependencies.{deleteable}
use libvineyard.Meta.Dependencies.Mirror.{inc_ref-grows}
use libvineyard.Meta.Paths.{split_dots, text_eq}
use libvineyard.Meta.Service.{
  id_in_key, key_parts, Op, TreeLibrary, Service, put_val, del_val, apply_op, update_one,
  meta_update, with_blob,
}
use libvineyard.Meta.Service.Updates.{instance_update-keeps, del_val-keeps}

-- An object that is a blob and that nothing owns.
abbrev pub IsFree : Multimap → ℕ → Type 0
IsFree supobjects b = (is_blob b ≡ true) × (deleteable b supobjects ≡ true)

abbrev HasMore : Multimap → Multimap → Type 0
HasMore m n = (o c : ℕ) → has_pair c o m ≡ true → has_pair c o n ≡ true

-- With fewer owners about, an object is still free.
IsFree-HasMore : (m n : Multimap) (b : ℕ) → HasMore m n → IsFree n b → IsFree m b
unfolding deleteable has_pair member
IsFree-HasMore m n b more (blob, free) = (
  blob,
  elim (List-cases (equal_range b m)) [
    | inl e ↦ rw e (ground arith)
    | inr (o, os, e) ↦ elim (List-cases (equal_range b n)) [
      | inl k ↦ absurd (clash (more o b (rw e (ground arith))) (rw k))
      | inr (p, ps, k) ↦ absurd (ground arith)
    ]
  ],
)
  where
    clash : {x : Bool} → x ≡ true → x ≡ false → ⊥
    clash a c = cc

-- Only a path of an object has an id.
id_in_key-data :
    (path : Text)
    → text_eq (split_dots path).0 (codes "data") ≡ false
    → id_in_key path ≡ invalid_object_id
unfolding id_in_key
id_in_key-data path h = ground arith

module _ {l : TreeLibrary} where
  del_val-blob :
      (op : Op) (s t : Service l) (b : ℕ)
      → del_val op s ≡ some (t, some b)
      → IsFree s.dependencies.supobjects b
  unfolding del_val
  del_val-blob op s t b e = ground (arith, id_in_key-data (key_parts op.key).0)

  apply_op-more :
      (op : Op) (s t : Service l) (r : Option ℕ)
      → apply_op op s ≡ some (t, r)
      → HasMore s.dependencies.supobjects t.dependencies.supobjects
  unfolding apply_op put_val
  apply_op-more op s t r e o c h =
      ground (arith, inc_ref-grows op.key op.val s.dependencies o c, del_val-keeps op s t r)

  apply_op-blob :
      (op : Op) (s t : Service l) (b : ℕ)
      → apply_op op s ≡ some (t, some b)
      → IsFree s.dependencies.supobjects b
  unfolding apply_op
  apply_op-blob op s t b e = ground (arith, del_val-blob op s t b)

  update_one-more :
      (op : Op) (s t : Service l) (r : Option ℕ)
      → update_one op s ≡ some (t, r)
      → HasMore s.dependencies.supobjects t.dependencies.supobjects
  unfolding update_one
  update_one-more op s t r e o c h = grind (arith, instance_update-keeps, apply_op-more)

  update_one-blob :
      (op : Op) (s t : Service l) (b : ℕ)
      → update_one op s ≡ some (t, some b)
      → IsFree s.dependencies.supobjects b
  unfolding update_one
  update_one-blob op s t b e = grind (arith, instance_update-keeps, apply_op-blob)

  with_blob-IsFree :
      (base : Multimap) (op : Op) (s u : Service l) (r : Option ℕ) (blobs : List ℕ)
      → update_one op s ≡ some (u, r)
      → HasMore base s.dependencies.supobjects
      → ((y : ℕ) → member y blobs ≡ true → IsFree base y)
      → (y : ℕ) → member y (with_blob r blobs) ≡ true
      → IsFree base y
  with_blob-IsFree base op s u none blobs e more free y h = free y h
  with_blob-IsFree base op s u (some b) blobs e more free y h = elim (Bool-cases (b == y)) [
    | inl same ↦
        subst (IsFree base) ((==_iff b y).0 same)
          (IsFree-HasMore base s.dependencies.supobjects b more (update_one-blob op s u b e))
    | inr other ↦ free y (ground (arith, member-insert y b blobs))
  ]

  meta_update_from :
      (base : Multimap) (ops : List Op) (s t : Service l) (blobs out : List ℕ) (x : ℕ)
      → meta_update ops s blobs ≡ some (t, out)
      → HasMore base s.dependencies.supobjects
      → ((y : ℕ) → member y blobs ≡ true → IsFree base y)
      → member x out ≡ true
      → IsFree base x
  unfolding meta_update
  meta_update_from base [] s t blobs out x e more free h = free x (ground arith)
  meta_update_from base (op ∷ ops) s t blobs out x e more free h =
      let ((u, r), first, rest) =
        chain_result (update_one op s) (λ p. meta_update ops p.0 (with_blob p.1 blobs)) (t, out)
          e in
      meta_update_from base ops u t (with_blob r blobs) out x rest
        (λ o c k. update_one-more op s u r first o c (more o c k))
        (with_blob-IsFree base op s u r blobs first more free) h

  -- A blob that the server is told to delete once the edits are applied is one that no object owned
  -- before them.
  pub meta_update-IsFree :
      (ops : List Op) (s t : Service l) (out : List ℕ) (x : ℕ)
      → meta_update ops s [] ≡ some (t, out)
      → member x out ≡ true
      → IsFree s.dependencies.supobjects x
  unfolding member
  meta_update-IsFree ops s t out x e h =
      meta_update_from s.dependencies.supobjects ops s t [] out x e (λ o c k. k)
        (λ y k. absurd (ground arith)) h
