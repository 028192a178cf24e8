-- ===== src/Meta/Tree/Reading/Flat.antt =====
-- Reading an object without members.
use libvineyard.Base.{
  ℕ, suc, ◌≡◌, refl, ◌∙◌, true, false, Option, some, [], ◌∷◌, ◌++◌, Text, codes, arith,
  append_assoc, append-nil,
}
use libvineyard.Common.Ptree.{is_plain, PtreeLibrary, PtreeLaws}
use libvineyard.Common.Ptree.Flat.{Pairs, has_key, fresh_after, leaves, flat, put-fresh}
use libvineyard.Common.Status.{ok}
use libvineyard.Meta.Links.{decode_value}
use libvineyard.Meta.Paths.{has_char}
use libvineyard.Meta.Tree.{found, get_sub_tree, data_prefix}
use libvineyard.Meta.Tree.Reading.{Got, got, plain, field_of, get_fields, with_id, get_data}

-- The fields as they are stored: every value with its tag.
abbrev pub tagged : Pairs → Pairs
tagged [] = []
tagged ((k, v) ∷ kvs) = (k, b'v' ∷ v) ∷ tagged kvs

module _ {l : PtreeLibrary} (w : PtreeLaws l) where
  field_of-tagged : (v : Text) → field_of (l.text (l.node (b'v' ∷ v) [])) ≡ plain v
  unfolding field_of decode_value
  field_of-tagged v = rw (w.text-node (b'v' ∷ v) [])

  get_fields-flat :
      (follow : Text → Option (Got l)) (before kvs : Pairs)
      → fresh_after before kvs ≡ true
      → get_fields l follow (leaves l (tagged kvs)) (flat l before)
        ≡ some (got ok (flat l (before ++ kvs)))
  unfolding get_fields
  get_fields-flat follow before [] h = rw (append-nil before)
  get_fields-flat follow before ((k, v) ∷ kvs) h =
      rw (field_of-tagged v, get_fields, put-fresh w k v before (ground arith) (ground arith))
        (get_fields-flat follow (before ++ (k, v) ∷ []) kvs (ground arith)
          ∙ rw (append_assoc before ((k, v) ∷ []) kvs))

  -- An object without members is read as its fields, and then its name.
  pub get_data-flat :
      (fuel : ℕ) (tree t : l.Ptree) (name : Text) (kvs : Pairs)
      → get_sub_tree l tree data_prefix name ≡ found t
      → l.children t ≡ leaves l (tagged kvs)
      → fresh_after [] kvs ≡ true
      → has_key (codes "id") kvs ≡ false
      → get_data l (suc fuel) tree name ≡ some (got ok (flat l (kvs ++ (codes "id", name) ∷ [])))
  unfolding get_data with_id is_plain has_char
  get_data-flat fuel tree t name kvs e c h k = rw (
    e,
    c,
    get_fields-flat (get_data l fuel tree) [] kvs h,
    get_data,
    put-fresh w (codes "id") name kvs refl k,
  )
