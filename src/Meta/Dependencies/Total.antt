-- ===== src/Meta/Dependencies/Total.antt =====
-- A deletion as a whole, with its fuel.
use libvineyard.Base.{
  ℕ, ◌+◌, ◌*◌, ◌≤◌, ◌<◌, Bool, true, some, List, [], ◌∷◌, ◌≡◌, refl, arith, length,
}
use libvineyard.Base.Multimap.{Multimap, member, has_pair}
use libvineyard.Meta.Dependencies.{Dependencies, Deletion, deletion_of, traverse_to_delete}
use libvineyard.Meta.Dependencies.Safety.{begun, begun-IsSafe, deletion_of-IsClosed}
use libvineyard.Meta.Dependencies.Visits.{traverse_to_delete-Advance}
use libvineyard.Meta.Dependencies.Weight.{IsRanked, left, weight, visit_all-Returns}
use libvineyard.Meta.Dependencies.Termination.{traverse_to_delete-Returns}

-- Every owner of an object in the set is in the set.
abbrev pub IsClosed : Multimap → List ℕ → Type 0
IsClosed supobjects deleted =
    (c o : ℕ) → has_pair c o supobjects ≡ true → member c deleted ≡ true → member o deleted ≡ true

left-nothing : (xs : List ℕ) → left xs [] ≡ length xs
unfolding left member
left-nothing [] = refl
left-nothing (x ∷ xs) = ground (arith, left-nothing xs)

-- Where no object is a member of itself, directly or not, as ranks below a height show, a deletion of
-- known objects ends, with fuel for the number of objects times that height; what it deletes is
-- closed upwards, so that no survivor has lost a member, forced or not, deep or not.
pub deletion_of_lem :
    (objects ids : List ℕ) (rank : ℕ → ℕ) (height fuel : ℕ) (force deep : Bool) (d : Dependencies)
    → ((x : ℕ) → rank x < height)
    → IsRanked objects rank d.subobjects d.supobjects
    → ((x : ℕ) → member x ids ≡ true → member x objects ≡ true)
    → length objects * height + height ≤ fuel
    → (s : Deletion) × (deletion_of fuel force deep ids d ≡ some s)
      × IsClosed d.supobjects s.delete_set
unfolding deletion_of weight
deletion_of_lem objects ids rank height fuel force deep d low ranked known enough =
    let (s, e) =
      visit_all-Returns d.supobjects objects rank height low [] fuel
        (traverse_to_delete fuel force deep)
        (λ x p q i v. (traverse_to_delete-Advance d.supobjects fuel [] force deep x p q i v).0)
        (traverse_to_delete-Returns d.supobjects objects rank height low fuel [] force deep) ids
        (begun d ids) (begun-IsSafe d ids)
        (record {
          ranked = ranked.ranked;
          owner_known = ranked.owner_known;
          member_known = ranked.member_known;
        })
        (λ x h. (known x h, rw (left-nothing objects) (omega (arith, low x)))) in
    (s, e, (λ c o owned gone. deletion_of-IsClosed d fuel force deep ids s c o e owned gone))
