-- ===== src/Graph/Schema/Tests.antt =====
-- A schema with a label of vertices and one of edges.
use libvineyard.Base.{ℕ, ◌≡◌, refl, some, List, [], ◌∷◌, Text, codes}
use libvineyard.Meta.Paths.{text_eq}
use libvineyard.Graph.Schema.{
  property_id_in, Schema, create_entry, created, change_mutable_entry, change_entry, add_property,
  get_vertex_label_id, get_vertex_label_name, get_vertex_property_id, get_vertex_property_name,
  get_edge_property_id, get_edge_property_name, get_edge_label_id, get_edge_label_name, first_id,
  element,
}
use libvineyard.Graph.Schema.Names.{Edit, creates, adds, edit_all, edit_all-names}

-- The types are numbers here.
abbrev edits : List (Edit ℕ)
edits =
    creates (codes "person") (codes "VERTEX")
    ∷ creates (codes "knows") (codes "EDGE")
    ∷ adds (codes "person") (codes "VERTEX") (codes "age") 1
    ∷ adds (codes "person") (codes "VERTEX") (codes "city") 2
    ∷ adds (codes "knows") (codes "EDGE") (codes "since") 1
    ∷ []

abbrev schema : Schema ℕ
schema = record {
  fnum = 4;
  vertex_entries =
      record {
        id = 0;
        label = codes "person";
        type = codes "VERTEX";
        props =
            record { id = 0; name = codes "age"; type = 1 }
            ∷ record { id = 1; name = codes "city"; type = 2 }
            ∷ [];
        primary_keys = [];
        relations = [];
      }
      ∷ [];
  edge_entries =
      record {
        id = 0;
        label = codes "knows";
        type = codes "EDGE";
        props = record { id = 0; name = codes "since"; type = 1 } ∷ [];
        primary_keys = [];
        relations = [];
      }
      ∷ [];
}

builds : edit_all edits (record { fnum = 4; vertex_entries = []; edge_entries = [] }) ≡ some schema
unfolding create_entry created change_mutable_entry change_entry add_property text_eq
builds = refl

edit_all-names_example :
    ((name : Text) (j : ℕ)
      → get_vertex_label_id name schema ≡ some j
      → get_vertex_label_name j schema ≡ some name)
    × ((label_id : ℕ) (name : Text) (j : ℕ)
        → get_vertex_property_id label_id name schema ≡ some j
        → get_vertex_property_name label_id j schema ≡ some name)
    × ((label_id : ℕ) (name : Text) (j : ℕ)
        → get_edge_property_id label_id name schema ≡ some j
        → get_edge_property_name label_id j schema ≡ some name)
edit_all-names_example = edit_all-names edits 4 schema builds

city : get_vertex_property_id 0 (codes "city") schema ≡ some 1
unfolding property_id_in first_id element text_eq
city = refl

-- The edge's label leads to an id, but that to the label of a vertex.
knows : get_edge_label_id (codes "knows") schema ≡ some 0
unfolding get_edge_label_id first_id text_eq
knows = refl

not_knows : get_edge_label_name 0 schema ≡ some (codes "person")
unfolding get_edge_label_name element
not_knows = refl
