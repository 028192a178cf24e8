-- ===== src/Meta/Dependencies/Safety.antt =====
-- The owners of what is deleted.
use libvineyard.Base.{ℕ, Bool, true, some, List, [], ◌∷◌, ◌≡◌, refl, inl, inr, subst, chain_inverse}
use libvineyard.Base.Multimap.{member, has_pair}
use libvineyard.Meta.Dependencies.{
  Dependencies, Deletion, visit_all, traverse_to_delete, deletion_of, set_of,
}
use libvineyard.Meta.Dependencies.Advance.{IsSafe, Advance, member-cons, visit_all-Advance, clash}
use libvineyard.Meta.Dependencies.Visits.{traverse_to_delete-Advance}

module _ (d : Dependencies) where
  abbrev pub begun : List ℕ → Deletion
  begun ids = record {
    subobjects = d.subobjects;
    supobjects = d.supobjects;
    initial_delete_set = set_of ids;
    delete_set = [];
  }

  pub begun-IsSafe : (ids : List ℕ) → IsSafe d.supobjects [] (begun ids)
  unfolding member
  begun-IsSafe ids = record {
    accounted = λ c o h. inl h;
    cleared = λ c o h k. absurd cc;
    emptied = λ c v h k. absurd cc;
    stacked = λ c h. absurd cc;
  }

  deletion_of-Advance :
      (fuel : ℕ) (force deep : Bool) (ids : List ℕ) (s : Deletion)
      → deletion_of fuel force deep ids d ≡ some s
      → Advance d.supobjects [] (begun ids) s
  unfolding deletion_of
  deletion_of-Advance fuel force deep ids s e =
      visit_all-Advance d.supobjects [] (traverse_to_delete fuel force deep)
        (λ x p q i v. (traverse_to_delete-Advance d.supobjects fuel [] force deep x p q i v).0) ids
        (begun ids) s e (begun-IsSafe ids)

  -- Forced or not, deep or not, a deletion of any objects is closed upwards: with an object it
  -- deletes every object that it was a member of, so that no survivor has a deleted member.
  pub deletion_of-IsClosed :
      (fuel : ℕ) (force deep : Bool) (ids : List ℕ) (s : Deletion) (c o : ℕ)
      → deletion_of fuel force deep ids d ≡ some s
      → has_pair c o d.supobjects ≡ true
      → member c s.delete_set ≡ true
      → member o s.delete_set ≡ true
  unfolding member
  deletion_of-IsClosed fuel force deep ids s c o e owned gone =
      let w = (deletion_of-Advance fuel force deep ids s e).safe in
      elim (w.accounted c o owned) [
        | inl k ↦ absurd (clash (w.cleared c o gone k) refl)
        | inr k ↦ k
      ]

  forced_all :
      (fuel : ℕ) (deep : Bool) (ids : List ℕ) (s t : Deletion) (x : ℕ)
      → visit_all (traverse_to_delete fuel true deep) ids s ≡ some t
      → IsSafe d.supobjects [] s
      → member x ids ≡ true
      → member x t.delete_set ≡ true
  unfolding visit_all member
  forced_all fuel deep [] s t x e w h = absurd cc
  forced_all fuel deep (y ∷ ys) s t x e w h =
      let visit = traverse_to_delete fuel true deep in
      let (u, first, rest) = chain_inverse (visit y s) (visit_all visit ys) t e in
      let (a, gone) = traverse_to_delete-Advance d.supobjects fuel [] true deep y s u first w in
      let b =
        visit_all-Advance d.supobjects [] visit
          (λ z p q i v. (traverse_to_delete-Advance d.supobjects fuel [] true deep z p q i v).0) ys
          u t rest a.safe in
      elim (member-cons d.supobjects x y ys h) [
        | inl same ↦ subst (λ z. member z t.delete_set ≡ true) same (b.grows y (gone refl))
        | inr later ↦ forced_all fuel deep ys u t x rest a.safe later
      ]

  -- A forced deletion that ends has deleted all that it was asked to.
  pub deletion_of-forced :
      (fuel : ℕ) (deep : Bool) (ids : List ℕ) (s : Deletion) (x : ℕ)
      → deletion_of fuel true deep ids d ≡ some s
      → member x ids ≡ true
      → member x s.delete_set ≡ true
  unfolding deletion_of
  deletion_of-forced fuel deep ids s x e h =
      forced_all fuel deep ids (begun ids) s x e (begun-IsSafe ids) h
