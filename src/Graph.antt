-- ===== src/Graph.antt =====
-- modules/graph/fragment: the graph fragments that are built on the store.
pub mod IdParser
pub mod Schema
