-- ===== src/Meta.antt =====
-- src/server/services/meta_service.cc and .h, and src/server/util/meta_tree.cc: the metadata of all
-- objects, which every server keeps a copy of.
pub mod Paths
pub mod Links
pub mod Tree
pub mod Dependencies
pub mod Service
