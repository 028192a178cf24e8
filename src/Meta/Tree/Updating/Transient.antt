-- ===== src/Meta/Tree/Updating/Transient.antt =====
-- An update leaves a persistent object persistent.
use libvineyard.Base.{
  ℕ, ◌^◌, ◌≡◌, refl, sym, ap, subst, ◌∙◌, Bool, true, false, Option, none, some, List, [], ◌∷◌,
  if◌then◌else◌, is_empty, Text, codes, All, chain, Bool-cases, inl, inr, chain_result,
  Option-cases, some-injective, branch_inverse,
}
use libvineyard.Common.Ptree.{is_plain, PtreeLibrary, PtreeLaws, with_each}
use libvineyard.Common.Ptree.Fields.{get_text, get_text-put, text_eq→≡}
use libvineyard.Common.Protocols.Fields.{get_text-add_child, get_text-empty}
use libvineyard.Common.Status.{Status}
use libvineyard.Meta.Links.{decode_value, is_link_node}
use libvineyard.Meta.Paths.{text_eq, has_char}
use libvineyard.Meta.Tree.{
  Result, found, failed, thrown, ◌>>=◌, required, cast_of, get_sub_tree, get_name, get_type,
  is_meta_placeholder, data_prefix,
}
use libvineyard.Meta.Tree.Updating.{
  is_fixed, requires_update, Diff, present, Members, diff_value, may_link, diff_member, diff_fields,
  diff_placeholder, finish_diff, diff_node, diff_against, diff_data_meta_tree,
}

abbrev transient : Text
transient = codes "transient"

-- What a chain of results that gives one has gone through.
pub bind_result {ℓ κ} :
    {A : Type ℓ} {B : Type κ} (r : Result A) (f : A → Result B) (b : B)
    → (r >>= f) ≡ found b
    → (a : A) × (r ≡ found a) × (f a ≡ found b)
bind_result (found a) f b e = (a, refl, e)
bind_result (failed status) f b e = absurd cc
bind_result (thrown x) f b e = absurd cc

pub found-injective {ℓ} : {A : Type ℓ} {a b : A} → found a ≡ found b → a ≡ b
found-injective e = cc

not_found {ℓ} : {A : Type ℓ} {a : A} {s : Status} → failed s ≡ found a → ⊥
not_found e = cc

clash : {b : Bool} → b ≡ true → b ≡ false → ⊥
clash h k = cc

module _ {l : PtreeLibrary} (w : PtreeLaws l) where
  -- The differences have no "transient".
  abbrev Silent : l.Ptree → Type 0
  Silent t = get_text l transient t ≡ none

  put-Silent :
      (k v : Text) (t : l.Ptree)
      → is_plain k ≡ true
      → text_eq k transient ≡ false
      → Silent t
      → Silent (l.put k v t)
  unfolding is_plain has_char
  put-Silent k v t p other h = rw (get_text-put w transient k v t refl p, other) h

  add_child-Silent :
      (k : Text) (s t : l.Ptree)
      → is_plain k ≡ true
      → text_eq k transient ≡ false
      → Silent t
      → Silent (l.add_child k s t)
  unfolding is_plain has_char
  add_child-Silent k s t p other h = rw (get_text-add_child w transient k s t refl p, h, other)

  either-Silent : (b : Bool) (x y : l.Ptree) → Silent x → Silent y → Silent (if b then x else y)
  either-Silent true x y h k = h
  either-Silent false x y h k = k

  module _ (old : l.Ptree) (v : Text) (stored : get_text l transient old ≡ some (b'v' ∷ v))
      (persistent : text_eq v (codes "true") ≡ false) where
    kept :
        (new : Text) (diff : l.Ptree)
        → Silent diff
        → Silent (diff_value l (present old) transient new diff)
    unfolding diff_value requires_update decode_value text_eq
    kept new diff h = rw (stored, persistent) h

    diff_value-Silent :
        (k new : Text) (diff : l.Ptree)
        → is_plain k ≡ true
        → Silent diff
        → Silent (diff_value l (present old) k new diff)
    unfolding diff_value
    diff_value-Silent k new diff p h = elim (Bool-cases (text_eq k transient)) [
      | inl same ↦ rw (text_eq→≡ k transient same) (kept new diff h)
      | inr other ↦ elim (Option-cases (get_text l k old)) [
        | inl e ↦ rw e (put-Silent k new diff p other h)
        | inr (ov, e) ↦ rw e (either-Silent _ _ _ (put-Silent k new diff p other h) h)
      ]
    ]

    may_link-transient :
        (k : Text) → text_eq k transient ≡ true → may_link l (present old) k ≡ false
    unfolding is_link_node get_text is_plain has_char
    may_link-transient k same =
        let (t, there, text) = chain_result (l.child transient old) _ _ stored in
        rw (
          text_eq→≡ k transient same,
          w.find_lem transient old,
          sym (w.child_lem transient old refl),
          there,
          some-injective text,
        )

    diff_member-Silent :
        (k : Text) (sub : l.Ptree) (sub_name : Text) (sub_diff diff e : l.Ptree)
        → is_plain k ≡ true
        → may_link l (present old) k ≡ true
        → diff_member l (present old) k sub sub_name sub_diff diff ≡ found e
        → Silent diff
        → Silent e
    unfolding diff_member
    diff_member-Silent k sub sub_name sub_diff diff e p may h s =
        elim (Bool-cases (text_eq k transient)) [
          | inl same ↦ absurd (clash may (may_link-transient k same))
          | inr other ↦ subst Silent (found-injective h) (
              either-Silent (is_empty (l.children sub_diff)) _ _ s
                (add_child-Silent k sub_diff diff p other s))
        ]

    diff_fields-Silent :
        (kids : Members l) (d e : Diff l)
        → All (λ kid. is_plain kid.0 ≡ true) kids
        → diff_fields l (present old) kids d ≡ found e
        → Silent d.diff
        → Silent e.diff
    unfolding diff_fields
    diff_fields-Silent [] d e p h s = subst (λ (x : Diff l). Silent x.diff) (found-injective h) s
    diff_fields-Silent ((k, t, diff_of) ∷ kids) d e p h s =
        elim (branch_inverse (is_fixed k) _ _ _ h) [
          | inl (fixed, h1) ↦ diff_fields-Silent kids d e p.1 h1 s
          | inr (free, h1) ↦ elim (branch_inverse (is_empty (l.children t)) _ _ _ h1) [
            | inl (leaf, h2) ↦
                diff_fields-Silent kids _ e p.1 h2 (diff_value-Silent k (l.text t) d.diff p.0 s)
            | inr (branch, h2) ↦ elim (branch_inverse (may_link l (present old) k) _ _ _ h2) [
              | inr (refused, h3) ↦ absurd (not_found h3)
              | inl (may, h3) ↦
                  let (sub_name, named, h4) = bind_result (get_name l t) _ e h3 in
                  let (sub, differs, h5) = bind_result (diff_of sub_name) _ e h4 in
                  let (diff, joined, h6) =
                    bind_result (diff_member l (present old) k t sub_name sub.diff d.diff) _ e h5 in
                  diff_fields-Silent kids _ e p.1 h6
                    (diff_member-Silent k t sub_name sub.diff d.diff diff p.0 may joined s)
            ]
          ]
        ]

  with_each-keys :
      {A : Type 0} (f : l.Ptree → A) (kids : List (Text × l.Ptree))
      → All (λ kid. is_plain kid.0 ≡ true) kids
      → All (λ kid. is_plain kid.0 ≡ true) (with_each f kids)
  unfolding with_each
  with_each-keys f [] p = tt
  with_each-keys f ((k, t) ∷ kids) p = (p.0, with_each-keys f kids p.1)

  placeholder-Silent :
      (cast : Text → Option ℕ) (old : l.Ptree) (status : Status) (name : Text) (d : Diff l)
      → diff_placeholder l cast (present old) status name ≡ found d
      → Silent d.diff
  unfolding diff_placeholder is_plain has_char text_eq
  placeholder-Silent cast old status name d h =
      let (type, typed, h1) = bind_result (get_type l old true) _ d h in
      let (text, there, h2) =
        bind_result (required (get_text l (codes "instance_id") old)) _ d h1 in
      let (id, number, h3) = bind_result (cast_of (cast (decode_value text).1)) _ d h2 in
      subst (λ (x : Diff l). Silent x.diff) (found-injective h3)
        (put-Silent (codes "typename") type _ refl refl
          (put-Silent (codes "id") name _ refl refl (get_text-empty w transient refl)))

  finish_present :
      (old : l.Ptree) (name : Text) (sub_tree : l.Ptree) (d : Diff l)
      → finish_diff l (present old) name sub_tree d ≡ found d
  unfolding finish_diff
  finish_present old name sub_tree d = elim (Bool-cases (is_empty (l.children d.diff))) [
    | inl e ↦ rw e
    | inr e ↦ rw e
  ]

  against-Silent :
      (cast : Text → Option ℕ) (sub_tree : l.Ptree) (kids : Members l) (old : l.Ptree)
      (name v : Text) (d : Diff l)
      → get_text l transient old ≡ some (b'v' ∷ v)
      → text_eq v (codes "true") ≡ false
      → All (λ kid. is_plain kid.0 ≡ true) kids
      → diff_against l cast sub_tree kids name (found old) ≡ found d
      → Silent d.diff
  unfolding diff_against finish_diff is_plain has_char
  against-Silent cast sub_tree kids old name v d stored persistent p h =
      elim (branch_inverse (is_meta_placeholder l sub_tree) _ _ _ h) [
        | inl (placeholder, h1) ↦ placeholder-Silent cast old _ name d h1
        | inr (whole, h1) ↦
            let (instance_id, read, h2) =
              bind_result
                (required
                  (chain (get_text l (codes "instance_id") sub_tree) (l.to_number (2 ^ 64))))
                _ d h1 in
            let (e, compared, h3) = bind_result (diff_fields l (present old) kids _) _ d h2 in
            subst (λ (x : Diff l). Silent x.diff)
              (found-injective (sym (finish_present old name sub_tree e) ∙ h3))
              (diff_fields-Silent old v stored persistent kids _ e p compared
                (get_text-empty w transient refl))
      ]

  -- Whatever a client sends, under keys that are not empty and have no dots, for an object whose stored
  -- "transient" is not true, what has changed in it does not have the field.
  pub diff_data_meta_tree-transient :
      (cast : Text → Option ℕ) (meta sub_tree old : l.Ptree) (name v : Text) (d : Diff l)
      → get_sub_tree l meta data_prefix name ≡ found old
      → get_text l (codes "transient") old ≡ some (b'v' ∷ v)
      → text_eq v (codes "true") ≡ false
      → All (λ kid. is_plain kid.0 ≡ true) (l.children sub_tree)
      → diff_data_meta_tree l cast meta sub_tree name ≡ found d
      → get_text l (codes "transient") d.diff ≡ none
  unfolding diff_data_meta_tree diff_node
  diff_data_meta_tree-transient cast meta sub_tree old name v d there stored persistent plain h =
      against-Silent cast sub_tree
        (with_each (l.fold (diff_node l cast meta)) (l.children sub_tree)) old name v d stored
        persistent (with_each-keys _ (l.children sub_tree) plain)
        (ap (diff_against l cast sub_tree _ name) (sym there)
          ∙ (ap (λ f. f name) (sym (w.fold_lem (diff_node l cast meta) sub_tree)) ∙ h))
