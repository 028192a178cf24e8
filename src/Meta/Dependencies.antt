-- ===== src/Meta/Dependencies.antt =====
-- src/server/services/meta_service.cc: which object is a member of which, and what is deleted with
-- an object.
pub mod Mirror
pub mod Advance
pub mod Visits
pub mod Safety
pub mod Weight
pub mod Termination
pub mod Total
pub mod Tests
use libvineyard.Base.{
  ℕ, zero, suc, Bool, true, false, not, ◌&&◌, ◌||◌, Option, none, some, List, [], ◌∷◌, ◌++◌, ◌==◌,
  ltb, if◌then◌else◌, Text, codes, length, is_empty,
}
use libvineyard.Base.Multimap.{
  Multimap, member, insert, remove, equal_range, erase_key, erase_pair, has_pair,
}
use libvineyard.Common.Uuid.{invalid_object_id, object_id_from_string}
use libvineyard.Meta.Paths.{split_dots, text_eq, penultimate}
use libvineyard.Meta.Links.{decode_object_id, decoded, undecoded}

-- `subobjects_` leads from an object to its members, `supobjects_` back.
pub record Dependencies : Type 0 where
  pub subobjects : Multimap
  pub supobjects : Multimap

-- `emplace`, unless the pair is there.
unfoldable pub add_pair : ℕ → ℕ → Multimap → Multimap
add_pair k v m = if has_pair k v m then m else m ++ (k, v) ∷ []

unfoldable pub add_member : ℕ → ℕ → Dependencies → Dependencies
add_member key_obj value_obj d = record {
  subobjects = add_pair key_obj value_obj d.subobjects;
  supobjects = add_pair value_obj key_obj d.supobjects;
}

-- `incRef`, for a key of the form `data.….<object id>.<field>`.
unfoldable pub inc_ref : Text → Text → Dependencies → Dependencies
inc_ref key val d =
    let (v, vs) = split_dots key in
    if ltb (suc (length vs)) 3
    then d
    else if text_eq v (codes "data")
    then elim (decode_object_id val) [
      | undecoded status ↦ d
      | decoded value_obj ↦ add_member (object_id_from_string (penultimate v vs)) value_obj d
    ]
    else d

unfoldable pub deleteable : ℕ → Multimap → Bool
deleteable object_id supobjects =
    not (object_id == invalid_object_id) && is_empty (equal_range object_id supobjects)

-- What `traverseToDelete` changes: the two maps, and the two sets, its in-out parameters.
pub record Deletion : Type 0 where
  pub subobjects : Multimap
  pub supobjects : Multimap
  pub initial_delete_set : List ℕ
  pub delete_set : List ℕ

-- A loop of calls, each of which may run out of fuel.
unfoldable pub visit_all : (ℕ → Deletion → Option Deletion) → List ℕ → Deletion → Option Deletion
visit_all visit [] s = some s
visit_all visit (x ∷ xs) s = elim (visit x s) [ none ↦ none | some t ↦ visit_all visit xs t ]

-- `sup_traget_to_preprocess`: the owners that are to be deleted too, in ascending order.
unfoldable pub owners_to_delete : List ℕ → List ℕ → List ℕ
owners_to_delete [] initial = []
owners_to_delete (x ∷ xs) initial =
    let rest = owners_to_delete xs initial in if member x initial then insert x rest else rest

-- The loop over the members of an object that is deleted: the edge to it goes, and a deep deletion
-- visits the member.
unfoldable pub release_members :
    (ℕ → Deletion → Option Deletion) → Bool → ℕ → List ℕ → Deletion → Option Deletion
release_members visit deep object_id [] s = some s
release_members visit deep object_id (c ∷ cs) s =
    let t = record s { supobjects = erase_pair c object_id s.supobjects } in
    if deep
    then elim (visit c t) [ none ↦ none | some u ↦ release_members visit deep object_id cs u ]
    else release_members visit deep object_id cs t

-- The loop over the owners of an object that is deleted by force.
unfoldable pub delete_owners :
    (ℕ → Deletion → Option Deletion) → ℕ → List ℕ → Deletion → Option Deletion
delete_owners visit object_id [] s = some s
delete_owners visit object_id (c ∷ cs) s =
    let t = record s { subobjects = erase_pair c object_id s.subobjects } in
    elim (visit c t) [ none ↦ none | some u ↦ delete_owners visit object_id cs u ]

-- The end of `traverseToDelete`.
abbrev pub forget : ℕ → Deletion → Deletion
forget object_id s = record s {
  subobjects = erase_key object_id s.subobjects;
  supobjects = erase_key object_id s.supobjects;
}

abbrev pub done : ℕ → Deletion → Deletion
done object_id s = record s { initial_delete_set = remove object_id s.initial_delete_set }

abbrev pub marked : ℕ → Deletion → Deletion
marked object_id s = record s { delete_set = insert object_id s.delete_set }

-- The branch of `traverseToDelete` in which the object is deleted.
unfoldable pub delete_object :
    (ℕ → Deletion → Option Deletion)
    → (ℕ → Deletion → Option Deletion)
    → Bool
    → Bool
    → ℕ
    → Deletion
    → Option Deletion
delete_object visit_member visit_owner force deep object_id s =
    elim (release_members visit_member deep object_id (equal_range object_id s.subobjects)
      (marked object_id s)) [
        | none ↦ none
        | some t ↦
            if force
            then elim (delete_owners visit_owner object_id (equal_range object_id t.supobjects) t) [
              | none ↦ none
              | some u ↦ some (done object_id (forget object_id u))
            ]
            else some (done object_id (forget object_id t))
      ]

-- The fuel bounds the depth of the recursion. A loop over a range of a map goes over the pairs that
-- the range holds when the loop starts.
unfoldable pub traverse_to_delete : ℕ → Bool → Bool → ℕ → Deletion → Option Deletion
traverse_to_delete zero force deep object_id s = none
traverse_to_delete (suc fuel) force deep object_id s =
    if member object_id s.delete_set
    then some s
    else elim (visit_all (traverse_to_delete fuel force deep)
        (owners_to_delete (equal_range object_id s.supobjects) s.initial_delete_set) s) [
          | none ↦ none
          | some t ↦
              if force || deleteable object_id t.supobjects
              then delete_object (traverse_to_delete fuel false true)
                  (traverse_to_delete fuel true false) force deep object_id t
              else some (done object_id t)
        ]

unfoldable pub set_of : List ℕ → List ℕ
set_of [] = []
set_of (x ∷ xs) = insert x (set_of xs)

-- The loop of `RequestToDelete`, over the ids that it is asked to delete.
unfoldable pub deletion_of : ℕ → Bool → Bool → List ℕ → Dependencies → Option Deletion
deletion_of fuel force deep ids d = visit_all (traverse_to_delete fuel force deep) ids (record {
  subobjects = d.subobjects;
  supobjects = d.supobjects;
  initial_delete_set = set_of ids;
  delete_set = [];
})
