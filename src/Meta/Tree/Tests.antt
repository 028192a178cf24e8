-- ===== src/Meta/Tree/Tests.antt =====
-- A stored tree with two objects, of which the second has the first as a member.
use libvineyard.Base.{
  ℕ, ◌<◌, ◌≤◌, ◌≡◌, refl, subst, Bool, true, Option, none, some, List, [], ◌∷◌, ◌++◌, if◌then◌else◌,
  Text, codes, arith, All, length, some-injective,
}
use libvineyard.Common.Ptree.{is_plain, find_key, with_each}
use libvineyard.Common.Ptree.Concrete.{concrete, concrete_laws}
use libvineyard.Common.Ptree.Fields.{get_text}
use libvineyard.Common.Ptree.Flat.{Pairs, leaves, flat, value_in}
use libvineyard.Common.Status.{ok}
use libvineyard.Common.Uuid.{object_id_to_string, object_id_from_string, is_blob}
use libvineyard.Meta.Links.{decode_value, parse_link}
use libvineyard.Meta.Paths.{text_eq, has_char, split_dots, cut_at}
use libvineyard.Meta.Tree.{found, get_sub_tree, data_prefix, get_type}
use libvineyard.Meta.Tree.Deleting.{del_fields, del_data_ops, del_all_ops}
use libvineyard.Meta.Tree.Persisting.{persist_ops}
use libvineyard.Meta.Tree.Persisting.Flat.{stores, switched, persist_ops-flat}
use libvineyard.Meta.Links.{is_link_node}
use libvineyard.Common.Ptree.{put_key}
use libvineyard.Meta.Service.{Op, del_op}
use libvineyard.Meta.Tree.{is_meta_placeholder}
use libvineyard.Meta.Tree.Updating.{
  put_data_ops, Diff, diff_data_meta_tree, diff_node, diff_against, diff_fields, diff_value,
  requires_update, finish_diff,
}
use libvineyard.Meta.Tree.Updating.Fresh.{stored_fields, put_data_ops-fresh}
use libvineyard.Meta.Tree.Updating.Transient.{diff_data_meta_tree-transient}
use libvineyard.Meta.Tree.Reading.Complete.{IsListed, IsComplete, list_data-IsListed}
use libvineyard.Meta.Tree.Reading.{
  Got, got, get_data, get_fields, with_id, list_objects, list_data, field_of,
}
use libvineyard.Meta.Tree.Reading.Flat.{tagged}
use libvineyard.Meta.Tree.Reading.Total.{target, Ranked, LinksDown-Ranked, get_data-total}

abbrev first : Text
first = codes "0000000000000011"

abbrev second : Text
second = codes "0000000000000022"

abbrev fields : Pairs
fields =
    (codes "typename", codes "T")
    ∷ (codes "transient", codes "true")
    ∷ (codes "instance_id", codes "1")
    ∷ []

abbrev object : concrete.Ptree
object = flat concrete (tagged fields)

abbrev owner_fields : Pairs
owner_fields =
    (codes "typename", codes "vT")
    ∷ (codes "transient", codes "vfalse")
    ∷ (codes "part", codes "l0000000000000011.T")
    ∷ []

abbrev owner : concrete.Ptree
owner = flat concrete owner_fields

abbrev metas : concrete.Ptree
metas = concrete.node [] ((first, object) ∷ (second, owner) ∷ [])

abbrev pub store : concrete.Ptree
store = concrete.node [] ((data_prefix, metas) ∷ [])

first_name : object_id_to_string 17 ≡ first
unfolding object_id_to_string
first_name = refl

first_stored : get_sub_tree concrete store data_prefix (object_id_to_string 17) ≡ found object
unfolding get_sub_tree concrete object_id_to_string split_dots text_eq has_char find_key
first_stored = refl

object-fields : concrete.children object ≡ leaves concrete (tagged fields)
unfolding concrete
object-fields = refl

persist_ops-flat_example :
    persist_ops concrete 1 store 17
    ≡ some (found (stores (codes "data." ++ object_id_to_string 17 ++ codes ".") (switched fields)))
unfolding text_eq is_plain has_char value_in is_blob
persist_ops-flat_example =
    persist_ops-flat concrete_laws 0 store object 17 fields first_stored object-fields refl refl
      refl refl (omega arith)

abbrev pub rank : Text → ℕ
rank name = if text_eq name second then 1 else 0

no_link : (s : Text) (n : ℕ) → target s ≡ none → (sub : Text) → target s ≡ some sub → rank sub < n
no_link s n e sub h = absurd cc

part_link : (sub : Text) → target (codes "l0000000000000011.T") ≡ some sub → rank sub < 1
unfolding target field_of decode_value parse_link cut_at has_char object_id_to_string
    object_id_from_string text_eq
part_link sub h = subst (λ s. rank s < 1) (some-injective h) (omega arith)

pub store-Ranked : Ranked concrete rank store
unfolding text_eq concrete target field_of decode_value split_dots find_key
store-Ranked =
    LinksDown-Ranked concrete_laws rank store metas refl
      (
        (
          no_link (codes "vT") 0 refl,
          (no_link (codes "vtrue") 0 refl, (no_link (codes "v1") 0 refl, tt)),
        ),
        ((no_link (codes "vT") 1 refl, (no_link (codes "vfalse") 1 refl, (part_link, tt))), tt),
      )
      (no_link [] 0 refl, (no_link [] 0 refl, tt))

get_data-total_example : (g : Got concrete) × (get_data concrete 2 store second ≡ some g)
unfolding text_eq
get_data-total_example = get_data-total rank store 2 second store-Ranked (omega arith)

second_stored : get_sub_tree concrete store data_prefix second ≡ found owner
unfolding get_sub_tree concrete split_dots text_eq has_char find_key
second_stored = refl

-- A client that sends "transient" again, and another field.
abbrev update : concrete.Ptree
update = flat concrete (
    (codes "instance_id", codes "1")
    ∷ (codes "transient", codes "true")
    ∷ (codes "color", codes "red")
    ∷ [])

abbrev as_number : Text → Option ℕ
as_number s = some 1

abbrev changes : Diff concrete
changes = record { diff = flat concrete ((codes "color", codes "red") ∷ []); instance_id = 1 }

updated : diff_data_meta_tree concrete as_number store update second ≡ found changes
unfolding diff_data_meta_tree diff_node diff_against diff_fields diff_value requires_update
    finish_diff is_meta_placeholder get_sub_tree concrete get_text split_dots text_eq has_char
    find_key put_key decode_value get_type is_link_node with_each
updated = refl

diff_data_meta_tree-transient_example : get_text concrete (codes "transient") changes.diff ≡ none
unfolding text_eq concrete get_text split_dots find_key is_plain has_char
diff_data_meta_tree-transient_example =
    diff_data_meta_tree-transient concrete_laws as_number store update owner second (codes "false")
      changes second_stored refl refl (refl, (refl, (refl, tt))) updated

-- A client that creates an object.
abbrev created_fields : Pairs
created_fields =
    (codes "id", codes "0000000000000033")
    ∷ (codes "typename", codes "T")
    ∷ (codes "color", codes "red")
    ∷ (codes "instance_id", codes "1")
    ∷ []

put_data_ops-fresh_example :
    put_data_ops concrete as_number store 51 (flat concrete created_fields)
    ≡ found (
      stores
          (codes "data." ++ object_id_to_string 51 ++ codes ".")
          (stored_fields created_fields (codes "T") (concrete.of_number 1)),
      1,
    )
unfolding get_sub_tree has_char object_id_to_string concrete split_dots find_key text_eq is_plain
    value_in
put_data_ops-fresh_example =
    put_data_ops-fresh concrete_laws as_number store 51 (codes "T") (codes "1") created_fields 1
      refl refl refl refl refl

abbrev listed : Got concrete
listed =
    got ok (concrete.node [] ((first, flat concrete (fields ++ (codes "id", first) ∷ [])) ∷ []))

abbrev any_type : Text → Bool
any_type type = true

lists_one : list_data concrete 2 store (some any_type) 1 ≡ some listed
unfolding list_data list_objects get_type get_data get_fields with_id field_of decode_value
    get_sub_tree concrete split_dots text_eq has_char find_key put_key
lists_one = refl

metas_fit : All (λ kid. (is_plain kid.0 ≡ true) × (rank kid.0 < 2)) (concrete.children metas)
unfolding is_plain has_char text_eq concrete
metas_fit = ((refl, omega arith), ((refl, omega arith), tt))

list_data-IsListed_example :
    (g : Got concrete) × (list_data concrete 2 store (some any_type) 1 ≡ some g)
    × (length (concrete.children g.sub_tree) ≤ 1)
    × All
        (IsListed concrete_laws any_type (get_data concrete 2 store) (concrete.children metas))
        (concrete.children g.sub_tree)
    × IsComplete concrete_laws any_type 1 g (concrete.children metas)
unfolding concrete split_dots find_key text_eq
list_data-IsListed_example =
    list_data-IsListed concrete_laws rank 2 store metas any_type 1 refl store-Ranked metas_fit

abbrev deleted : List Op
deleted =
    del_op (codes "data.0000000000000011.typename") 0
    ∷ del_op (codes "data.0000000000000011.transient") 0
    ∷ del_op (codes "data.0000000000000011.instance_id") 0
    ∷ del_op (codes "data.0000000000000011") 0
    ∷ []

deletes_first : del_all_ops concrete store (17 ∷ []) ≡ found deleted
unfolding del_all_ops del_data_ops del_fields object_id_to_string concrete split_dots text_eq
    find_key
deletes_first = refl
