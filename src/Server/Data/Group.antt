-- ===== src/Server/Data/Group.antt =====
-- `GetData` of src/server/server/vineyard_server.cc: what a client reads from the reply for a group of
-- objects.
use libvineyard.Base.{
  ℕ, ◌<◌, ◌^◌, ◌≡◌, refl, ap, sym, ◌∙◌, subst, Bool, true, false, ◌||◌, Option, none, some, List,
  [], ◌∷◌, ◌++◌, if◌then◌else◌, Text, is_empty, All, All-mono, Bool-cases, inl, inr, arith, ◌==◌,
}
use libvineyard.Base.Multimap.{member}
use libvineyard.Base.Table.{Table, lookup, emplace, lookup-cons}
use libvineyard.Common.Ptree.{PtreeLibrary, PtreeLaws, empty_tree, is_plain}
use libvineyard.Common.Protocols.{result}
use libvineyard.Common.Protocols.Replies.{
  emplace_objects, read_get_data_replies, write_get_data_reply,
}
use libvineyard.Common.Protocols.Replies.RoundTrip.{get_data_replies_roundtrip}
use libvineyard.Common.Uuid.{object_id_to_string, object_id_from_string}
use libvineyard.Common.Uuid.Laws.{object_id_to_string-IsHexByte, object_id_from_string-to_string}
use libvineyard.Meta.Links.RoundTrip.{no_dot}
use libvineyard.Meta.Tree.Reading.{Got, get_data}
use libvineyard.Meta.Tree.Reading.Total.{Ranked, get_data-total}
use libvineyard.Server.Data.{with_object, group_objects, eval_objects}

or_else {ℓ} : {A : Type ℓ} → Option A → Option A → Option A
or_else none p = p
or_else (some a) p = some a

or_else-none {ℓ} : {A : Type ℓ} (p : Option A) → or_else p none ≡ p
unfolding or_else
or_else-none none = refl
or_else-none (some a) = refl

absorbed {ℓ} :
    {A : Type ℓ} (a p : Option A) (again : Bool)
    → or_else (or_else a p) (if again then p else none) ≡ or_else a p
unfolding or_else
absorbed (some a) p again = refl
absorbed none (some b) again = refl
absorbed none none true = refl
absorbed none none false = refl

lookup-emplace :
    {V : Type 0} (j i : ℕ) (v : V) (m : Table V)
    → lookup j (emplace i v m) ≡ or_else (lookup j m) (if i == j then some v else none)
unfolding or_else
lookup-emplace j i v m = ground (arith, lookup-cons j i v m, or_else-none (lookup j m))

emplace_objects-append :
    (l : PtreeLibrary) (kvs : List (Text × l.Ptree)) (k : Text) (t : l.Ptree) (m : Table l.Ptree)
    → emplace_objects l (kvs ++ (k, t) ∷ []) m
      ≡ emplace (object_id_from_string k) t (emplace_objects l kvs m)
unfolding emplace_objects
emplace_objects-append l [] k t m = refl
emplace_objects-append l ((j, u) ∷ kvs) k t m =
    emplace_objects-append l kvs k t (emplace (object_id_from_string j) u m)

-- What a client sees of an object: nothing where it is not there.
abbrev pub seen : (l : PtreeLibrary) → Option (Got l) → Option l.Ptree
seen l none = none
seen l (some g) = if is_empty (l.children g.sub_tree) then none else some g.sub_tree

module _ {l : PtreeLibrary} (w : PtreeLaws l) where
  abbrev objects_in : l.Ptree → Table l.Ptree
  objects_in group = emplace_objects l (l.children group) []

  name-is_plain : (id : ℕ) → id < 2 ^ 64 → is_plain (object_id_to_string id) ≡ true
  unfolding is_plain
  name-is_plain id h =
      let digits = object_id_to_string-IsHexByte id h in
      rw (digits.1, no_dot (object_id_to_string id) digits.0)

  lookup-with_object :
      (j id : ℕ) (g : Got l) (group : l.Ptree)
      → id < 2 ^ 64
      → lookup j (objects_in (with_object l (object_id_to_string id) g.sub_tree group))
        ≡ or_else (lookup j (objects_in group)) (if id == j then seen l (some g) else none)
  unfolding or_else
  lookup-with_object j id g group h = elim (Bool-cases (is_empty (l.children g.sub_tree))) [
    | inl bare ↦ ground (arith, bare, or_else-none (lookup j (objects_in group)))
    | inr full ↦
        rw
          (
            full,
            w.add_child_lem (object_id_to_string id) g.sub_tree group (name-is_plain id h),
            w.children-node (l.text group)
                (l.children group ++ (object_id_to_string id, g.sub_tree) ∷ []),
            emplace_objects-append l (l.children group) (object_id_to_string id) g.sub_tree [],
            object_id_from_string-to_string id h,
          )
          (lookup-emplace j id g.sub_tree (objects_in group))
  ]

  combine :
      (a p : Option l.Ptree) (s : ℕ → Option l.Ptree) (j id : ℕ) (rest : Bool)
      → s id ≡ p
      → or_else (or_else a (if id == j then p else none)) (if rest then s j else none)
        ≡ or_else a (if id == j || rest then s j else none)
  unfolding or_else
  combine a p s j id rest e = elim (Bool-cases (id == j)) [
    | inl same ↦
        let agree : id ≡ j = ground arith in
        let here : s j ≡ p = subst (λ i. s i ≡ p) agree e in rw (same, here) (absorbed a p rest)
    | inr other ↦ rw (other, or_else-none a)
  ]

  group_objects-seen :
      (read : Text → Option (Got l)) (ids : List ℕ) (group : l.Ptree)
      → All (λ id. (id < 2 ^ 64) × ((g : Got l) × (read (object_id_to_string id) ≡ some g))) ids
      → (out : l.Ptree) × (group_objects l read ids group ≡ some out)
        × ((j : ℕ)
            → lookup j (objects_in out)
              ≡ or_else
                  (lookup j (objects_in group))
                  (if member j ids then seen l (read (object_id_to_string j)) else none))
  unfolding group_objects member or_else
  group_objects-seen read [] group h =
      (group, refl, (λ j. sym (or_else-none (lookup j (objects_in group)))))
  group_objects-seen read (id ∷ ids) group ((fits, (g, e)), hs) =
      let (out, done, shown) =
        group_objects-seen read ids (with_object l (object_id_to_string id) g.sub_tree group) hs in
      (
        out,
        rw e done,
        (λ j.
            shown j
            ∙ (ap
                  (λ o.
                    or_else o
                      (if member j ids then seen l (read (object_id_to_string j)) else none))
                  (lookup-with_object j id g group fits)
                ∙ combine (lookup j (objects_in group)) (seen l (some g))
                    (λ i. seen l (read (object_id_to_string i))) j id (member j ids) (rw e refl))),
      )

  nothing_in_it : objects_in (empty_tree l) ≡ []
  unfolding emplace_objects
  nothing_in_it = rw (w.children-node [] [])

  -- Where links go down in a rank and there is fuel for it, `GetData` of a group of ids is answered, and
  -- its client reads each object of the group, as `GetData` of it alone gives it, and no other; an object
  -- that is not there is left out, and one that is asked for twice comes once.
  pub eval_objects_lem :
      (rank : Text → ℕ) (fuel : ℕ) (meta : l.Ptree) (ids : List ℕ)
      → Ranked l rank meta
      → All (λ id. (id < 2 ^ 64) × (rank (object_id_to_string id) < fuel)) ids
      → (group : l.Ptree) × (objects : Table l.Ptree) × (eval_objects l fuel ids meta ≡ some group)
        × (read_get_data_replies l (write_get_data_reply l group) ≡ result objects)
        × ((j : ℕ)
            → lookup j objects ≡ (
                if member j ids
                then seen l (get_data l fuel meta (object_id_to_string j))
                else none))
  unfolding eval_objects lookup or_else
  eval_objects_lem rank fuel meta ids h fits =
      let (group, done, shown) = group_objects-seen (get_data l fuel meta) ids (empty_tree l) (
        All-mono ids (λ id f. (f.0, get_data-total rank meta fuel (object_id_to_string id) h f.1))
          fits) in
      (
        group,
        objects_in group,
        done,
        get_data_replies_roundtrip w group,
        (λ j.
            shown j
            ∙ ap
                (λ m. or_else (lookup j m) (
                  if member j ids
                  then seen l (get_data l fuel meta (object_id_to_string j))
                  else none))
                (nothing_in_it)),
      )
