-- ===== src/Meta/Dependencies/Tests.antt =====
-- Dependencies on concrete objects: 10 has the members 20 and 21, and 20 has the member 30.
use libvineyard.Base.{
  ℕ, ◌==◌, if◌then◌else◌, arith, List, [], ◌∷◌, ◌++◌, ◌&&◌, not, ◌≡◌, refl, true, false, some, Text,
  codes,
}
use libvineyard.Base.Multimap.{member, insert, remove, equal_range, erase_key, erase_pair, has_pair}
use libvineyard.Common.Uuid.{object_id_to_string}
use libvineyard.Meta.Dependencies.{
  Dependencies, Deletion, deleteable, inc_ref, visit_all, release_members, delete_owners,
  delete_object, traverse_to_delete, owners_to_delete, deletion_of, set_of,
}
use libvineyard.Meta.Dependencies.Safety.{deletion_of-forced}
use libvineyard.Meta.Dependencies.Weight.{IsRanked}
use libvineyard.Meta.Dependencies.Total.{IsClosed, deletion_of_lem}
use libvineyard.Meta.Dependencies.Mirror.{inc_ref-IsMirror}
use libvineyard.Meta.Links.{encode_value, generate_link, link}

abbrev family : Dependencies
family = record {
  subobjects = (10, 20) ∷ (10, 21) ∷ (20, 30) ∷ [];
  supobjects = (20, 10) ∷ (21, 10) ∷ (30, 20) ∷ [];
}

-- A deep deletion of 10 takes all.
abbrev all_gone : Deletion
all_gone = record {
  subobjects = [];
  supobjects = [];
  initial_delete_set = [];
  delete_set = 10 ∷ 20 ∷ 21 ∷ 30 ∷ [];
}

deep : deletion_of 5 false true (10 ∷ []) family ≡ some all_gone
unfolding deletion_of visit_all release_members delete_owners delete_object traverse_to_delete
    owners_to_delete set_of deleteable member insert remove equal_range erase_key erase_pair
    has_pair
deep = refl

-- A forced deletion of 30 takes its owners too.
abbrev chain_gone : Deletion
chain_gone = record {
  subobjects = [];
  supobjects = [];
  initial_delete_set = [];
  delete_set = 10 ∷ 20 ∷ 30 ∷ [];
}

forced : deletion_of 5 true false (30 ∷ []) family ≡ some chain_gone
unfolding deletion_of visit_all release_members delete_owners delete_object traverse_to_delete
    owners_to_delete set_of deleteable member insert remove equal_range erase_key erase_pair
    has_pair
forced = refl

-- 10 is owned by nobody, its members by 10, and 30 by 20.
abbrev generation : ℕ → ℕ
generation x = if x == 30 then 2 else if x == 10 then 0 else 1

abbrev objects : List ℕ
objects = 10 ∷ 20 ∷ 21 ∷ 30 ∷ []

family-IsRanked : IsRanked objects generation family.subobjects family.supobjects
unfolding member has_pair equal_range
family-IsRanked = ground arith

deletion_of_lem_example :
    (s : Deletion) × (deletion_of 15 false true (10 ∷ []) family ≡ some s)
    × IsClosed family.supobjects s.delete_set
unfolding member
deletion_of_lem_example =
    deletion_of_lem objects (10 ∷ []) generation 3 15 false true family (λ x. ground arith)
      family-IsRanked (λ x h. ground arith) (omega arith)

deletion_of-forced_example : member 30 chain_gone.delete_set ≡ true
unfolding member
deletion_of-forced_example = deletion_of-forced family 5 false (30 ∷ []) chain_gone 30 forced refl

abbrev nobody : Dependencies
nobody = record { subobjects = []; supobjects = [] }

abbrev key : Text
key = codes "data." ++ object_id_to_string 10 ++ codes ".buffer_"

abbrev val : Text
val = encode_value link (generate_link (codes "Blob") (object_id_to_string 20))

no_edges : (o c : ℕ) → has_pair o c [] ≡ has_pair c o []
unfolding has_pair equal_range member
no_edges o c = refl

inc_ref-IsMirror_example :
    let e = inc_ref key val nobody in
    (has_pair 10 20 e.subobjects ≡ has_pair 20 10 e.supobjects)
    × ((has_pair 10 20 [] && not (has_pair 10 20 e.subobjects)) ≡ false)
    × ((has_pair 10 20 e.subobjects && deleteable 20 e.supobjects) ≡ false)
inc_ref-IsMirror_example = inc_ref-IsMirror key val nobody 10 20 no_edges
