-- ===== src/Graph/Schema.antt =====
-- modules/graph/fragment/graph_schema.cc: the entries of a property graph's schema, one for each label of
-- vertices or edges. A type of properties is an argument. -1 is none, and so is what lies past the end of
-- a vector, which is undefined. The ids do not reach the limit of an int. JSON is left out.
pub mod Names
pub mod Tests
use libvineyard.Base.{
  ℕ, zero, suc, ◌+◌, Bool, true, false, Option, none, some, List, [], ◌∷◌, ◌++◌, if◌then◌else◌,
  Text, codes, length, map, chain, ◌==◌,
}
use libvineyard.Meta.Paths.{text_eq}

-- `Entry::PropertyDef`
pub record PropertyDef (T : Type 0) : Type 0 where
  pub id : ℕ
  pub name : Text
  pub type : T

-- `Entry`, without the mappings of `MaxGraphSchema`.
pub record Entry (T : Type 0) : Type 0 where
  pub id : ℕ
  pub label : Text
  pub type : Text
  pub props : List (PropertyDef T)
  pub primary_keys : List Text
  pub relations : List (Text × Text)

-- `PropertyGraphSchema`
pub record Schema (T : Type 0) : Type 0 where
  pub fnum : ℕ
  pub vertex_entries : List (Entry T)
  pub edge_entries : List (Entry T)

-- `v[i]`
unfoldable pub element : {A : Type 0} → ℕ → List A → Option A
element i [] = none
element zero (a ∷ xs) = some a
element (suc i) (a ∷ xs) = element i xs

-- A loop that looks for a name and returns the id.
unfoldable pub first_id : {A : Type 0} → (A → Text) → (A → ℕ) → Text → List A → Option ℕ
first_id name_of id_of name [] = none
first_id name_of id_of name (a ∷ xs) =
    let rest = first_id name_of id_of name xs in
    if text_eq (name_of a) name then some (id_of a) else rest

abbrev pub is_vertex : Text → Bool
is_vertex type = text_eq type (codes "VERTEX")

module _ {T : Type 0} where
  unfoldable pub add_property : Text → T → Entry T → Entry T
  add_property name type e = record e {
    props = e.props ++ record { id = length e.props; name = name; type = type } ∷ [];
  }

  -- The first `key_count` names; fewer are read past the end.
  unfoldable pub add_primary_keys : ℕ → List Text → Entry T → Option (Entry T)
  add_primary_keys zero names e = some e
  add_primary_keys (suc n) [] e = none
  add_primary_keys (suc n) (name ∷ names) e =
      add_primary_keys n names (record e { primary_keys = e.primary_keys ++ name ∷ [] })

  unfoldable pub add_relation : Text → Text → Entry T → Entry T
  add_relation src dst e = record e { relations = e.relations ++ (src, dst) ∷ [] }

  abbrev pub id_of_property : Text → List (PropertyDef T) → Option ℕ
  id_of_property = first_id (λ p. p.name) (λ p. p.id)

  unfoldable pub property_of_id : ℕ → List (PropertyDef T) → Option (PropertyDef T)
  property_of_id prop_id [] = none
  property_of_id prop_id (p ∷ ps) =
      let rest = property_of_id prop_id ps in if p.id == prop_id then some p else rest

  -- `Entry::GetPropertyId`, `GetPropertyName` and `GetPropertyType`; the null type is an argument.
  abbrev pub get_property_id : Text → Entry T → Option ℕ
  get_property_id name e = id_of_property name e.props

  unfoldable pub get_property_name : ℕ → Entry T → Text
  get_property_name prop_id e = elim (property_of_id prop_id e.props) [
    | none ↦ []
    | some p ↦ p.name
  ]

  unfoldable pub get_property_type : T → ℕ → Entry T → T
  get_property_type null prop_id e = elim (property_of_id prop_id e.props) [
    | none ↦ null
    | some p ↦ p.type
  ]

  -- `CreateEntry`: the new entry is the last of its kind.
  unfoldable pub created : Text → Text → List (Entry T) → List (Entry T)
  created name type entries =
      entries
      ++ record {
        id = length entries;
        label = name;
        type = type;
        props = [];
        primary_keys = [];
        relations = [];
      }
        ∷ []

  unfoldable pub create_entry : Text → Text → Schema T → Schema T
  create_entry name type s =
      if is_vertex type
      then record s { vertex_entries = created name type s.vertex_entries }
      else record s { edge_entries = created name type s.edge_entries }

  -- `AddEntry`: the entry keeps its id.
  unfoldable pub add_entry : Entry T → Schema T → Schema T
  add_entry e s =
      if is_vertex e.type
      then record s { vertex_entries = s.vertex_entries ++ e ∷ [] }
      else record s { edge_entries = s.edge_entries ++ e ∷ [] }

  -- A write through the reference that `GetMutableEntry` gives, which throws where there is none.
  unfoldable pub change_entry :
      Text → (Entry T → Entry T) → List (Entry T) → Option (List (Entry T))
  change_entry label f [] = none
  change_entry label f (e ∷ es) =
      let rest = change_entry label f es in
      if text_eq e.label label then some (f e ∷ es) else chain rest (λ fs. some (e ∷ fs))

  unfoldable pub change_mutable_entry :
      Text → Text → (Entry T → Entry T) → Schema T → Option (Schema T)
  change_mutable_entry label type f s =
      if is_vertex type
      then chain (change_entry label f s.vertex_entries)
          (λ es. some (record s { vertex_entries = es }))
      else chain (change_entry label f s.edge_entries) (λ es. some (record s { edge_entries = es }))

  abbrev pub id_of_label : Text → List (Entry T) → Option ℕ
  id_of_label = first_id (λ e. e.label) (λ e. e.id)

  unfoldable pub get_vertex_label_id : Text → Schema T → Option ℕ
  get_vertex_label_id name s = id_of_label name s.vertex_entries

  unfoldable pub get_edge_label_id : Text → Schema T → Option ℕ
  get_edge_label_id name s = id_of_label name s.edge_entries

  unfoldable pub get_vertex_label_name : ℕ → Schema T → Option Text
  get_vertex_label_name label_id s = chain (element label_id s.vertex_entries) (λ e. some e.label)

  -- The name is that of a vertex.
  unfoldable pub get_edge_label_name : ℕ → Schema T → Option Text
  get_edge_label_name label_id s = chain (element label_id s.vertex_entries) (λ e. some e.label)

  -- `GetVertexPropertyId` and `GetEdgePropertyId`, of the entries of either kind.
  unfoldable pub property_id_in : ℕ → Text → List (Entry T) → Option ℕ
  property_id_in label_id name es = chain (element label_id es) (get_property_id name)

  unfoldable pub property_in : ℕ → ℕ → List (Entry T) → Option (PropertyDef T)
  property_in label_id prop_id es = chain (element label_id es) (λ e. element prop_id e.props)

  abbrev pub get_vertex_property_id : ℕ → Text → Schema T → Option ℕ
  get_vertex_property_id label_id name s = property_id_in label_id name s.vertex_entries

  abbrev pub get_edge_property_id : ℕ → Text → Schema T → Option ℕ
  get_edge_property_id label_id name s = property_id_in label_id name s.edge_entries

  unfoldable pub get_vertex_property_name : ℕ → ℕ → Schema T → Option Text
  get_vertex_property_name label_id prop_id s =
      chain (property_in label_id prop_id s.vertex_entries) (λ p. some p.name)

  unfoldable pub get_vertex_property_type : ℕ → ℕ → Schema T → Option T
  get_vertex_property_type label_id prop_id s =
      chain (property_in label_id prop_id s.vertex_entries) (λ p. some p.type)

  unfoldable pub get_edge_property_name : ℕ → ℕ → Schema T → Option Text
  get_edge_property_name label_id prop_id s =
      chain (property_in label_id prop_id s.edge_entries) (λ p. some p.name)

  unfoldable pub get_edge_property_type : ℕ → ℕ → Schema T → Option T
  get_edge_property_type label_id prop_id s =
      chain (property_in label_id prop_id s.edge_entries) (λ p. some p.type)

  unfoldable pub get_vertex_labels : Schema T → List Text
  get_vertex_labels s = map (λ e. e.label) s.vertex_entries

  unfoldable pub get_edge_labels : Schema T → List Text
  get_edge_labels s = map (λ e. e.label) s.edge_entries
