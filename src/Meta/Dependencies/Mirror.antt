-- ===== src/Meta/Dependencies/Mirror.antt =====
-- How the maps of members and of owners correspond.
use libvineyard.Base.{
  ℕ, suc, true, false, not, ◌&&◌, ◌||◌, [], ◌∷◌, ◌==◌, Text, ◌≡◌, refl, ◌⊎◌, inl, inr, Bool-cases,
  List-cases, arith, codes, ltb, length,
}
use libvineyard.Base.Multimap.{Multimap, member, equal_range, has_pair, has_pair-append}
use libvineyard.Common.Uuid.{object_id_from_string}
use libvineyard.Common.Status.{Status}
use libvineyard.Meta.Paths.{split_dots, text_eq, penultimate}
use libvineyard.Meta.Links.{Decoded, decode_object_id, decoded, undecoded}
use libvineyard.Meta.Dependencies.{Dependencies, add_pair, add_member, inc_ref, deleteable}

-- Who is a member of an object has that object as owner, and the other way round.
abbrev pub IsMirror : Dependencies → Type 0
IsMirror d = (o c : ℕ) → has_pair o c d.subobjects ≡ has_pair c o d.supobjects

one_pair : (k v j w : ℕ) → has_pair k v ((j, w) ∷ []) ≡ (j == k && w == v)
unfolding has_pair equal_range member
one_pair k v j w = ground arith

has_pair-add_pair :
    (k v j w : ℕ) (m : Multimap)
    → has_pair k v (add_pair j w m) ≡ (has_pair k v m || j == k && w == v)
unfolding add_pair
has_pair-add_pair k v j w m = ground (arith, has_pair-append k v m ((j, w) ∷ []), one_pair k v j w)

add_member-IsMirror : (o c : ℕ) (d : Dependencies) → IsMirror d → IsMirror (add_member o c d)
unfolding add_member
add_member-IsMirror o c d mirror p m = ground (
  arith,
  mirror p m,
  has_pair-add_pair p m o c d.subobjects,
  has_pair-add_pair m p c o d.supobjects,
)

-- An object with an owner is not deleteable.
deleteable-owned : (c o : ℕ) (m : Multimap) → (has_pair c o m && deleteable c m) ≡ false
unfolding deleteable has_pair member
deleteable-owned c o m = elim (List-cases (equal_range c m)) [
  | inl e ↦ rw e
  | inr (x, xs, e) ↦ ground arith
]

abbrev Keeps : ℕ → ℕ → Dependencies → Dependencies → Type 0
Keeps o c d e =
    (has_pair o c e.subobjects ≡ has_pair c o e.supobjects)
    × ((has_pair o c d.subobjects && not (has_pair o c e.subobjects)) ≡ false)
    × ((has_pair o c e.subobjects && deleteable c e.supobjects) ≡ false)

same-Keeps : (o c : ℕ) (d : Dependencies) → IsMirror d → Keeps o c d d
same-Keeps o c d mirror = ground (arith, mirror o c, deleteable-owned c o d.supobjects)

add_member-subobjects :
    (o c p m : ℕ) (d : Dependencies)
    → has_pair o c (add_member p m d).subobjects ≡ (has_pair o c d.subobjects || p == o && m == c)
unfolding add_member
add_member-subobjects o c p m d = has_pair-add_pair o c p m d.subobjects

add_member-Keeps : (o c p m : ℕ) (d : Dependencies) → IsMirror d → Keeps o c d (add_member p m d)
add_member-Keeps o c p m d mirror = ground (
  arith,
  add_member-IsMirror p m d mirror o c,
  add_member-subobjects o c p m d,
  deleteable-owned c o (add_member p m d).supobjects,
)

Decoded-cases :
    (x : Decoded) → ((status : Status) × (x ≡ undecoded status)) ⊎ ((id : ℕ) × (x ≡ decoded id))
Decoded-cases (undecoded status) = inl (status, refl)
Decoded-cases (decoded id) = inr (id, refl)

-- Whatever key and value are put into the tree, the two maps stay mirror images, no edge is lost, and
-- an object that has an owner by them is not deleteable.
pub inc_ref-IsMirror :
    (key val : Text) (d : Dependencies) (o c : ℕ)
    → IsMirror d
    → let e = inc_ref key val d in
      (has_pair o c e.subobjects ≡ has_pair c o e.supobjects)
      × ((has_pair o c d.subobjects && not (has_pair o c e.subobjects)) ≡ false)
      × ((has_pair o c e.subobjects && deleteable c e.supobjects) ≡ false)
unfolding inc_ref
inc_ref-IsMirror key val d o c mirror =
    let (v, vs) = split_dots key in
    elim (Bool-cases (ltb (suc (length (split_dots key).1)) 3)) [
      | inl short ↦ rw (short, inc_ref) (same-Keeps o c d mirror)
      | inr long ↦ elim (Bool-cases (text_eq (split_dots key).0 (codes "data"))) [
        | inr other ↦ rw (long, other, inc_ref) (same-Keeps o c d mirror)
        | inl data_key ↦ elim (Decoded-cases (decode_object_id val)) [
          | inl (status, e) ↦ rw (long, data_key, e, inc_ref) (same-Keeps o c d mirror)
          | inr (member_id, e) ↦
              rw (long, data_key, e, inc_ref)
                (add_member-Keeps o c (object_id_from_string (penultimate v vs)) member_id d mirror)
        ]
      ]
    ]

add_member-grows :
    (o c p m : ℕ) (d : Dependencies)
    → has_pair c o d.supobjects ≡ true
    → has_pair c o (add_member p m d).supobjects ≡ true
unfolding add_member
add_member-grows o c p m d h = ground (arith, has_pair-add_pair c o m p d.supobjects)

-- No owner is lost.
pub inc_ref-grows :
    (key val : Text) (d : Dependencies) (o c : ℕ)
    → has_pair c o d.supobjects ≡ true
    → has_pair c o (inc_ref key val d).supobjects ≡ true
unfolding inc_ref
inc_ref-grows key val d o c h =
    let (v, vs) = split_dots key in
    elim (Bool-cases (ltb (suc (length (split_dots key).1)) 3)) [
      | inl short ↦ rw (short, inc_ref) h
      | inr long ↦ elim (Bool-cases (text_eq (split_dots key).0 (codes "data"))) [
        | inr other ↦ rw (long, other, inc_ref) h
        | inl data_key ↦ elim (Decoded-cases (decode_object_id val)) [
          | inl (status, e) ↦ rw (long, data_key, e, inc_ref) h
          | inr (member_id, e) ↦
              rw (long, data_key, e, inc_ref)
                (add_member-grows o c (object_id_from_string (penultimate v vs)) member_id d h)
        ]
      ]
    ]
