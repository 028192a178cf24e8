-- ===== src/Memory.antt =====
-- src/server/memory: the allocator that counts what it hands out, and the store of blobs over it.
pub mod Malloc
pub mod Allocator
pub mod BulkStore
