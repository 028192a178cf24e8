-- ===== src/Memory/BulkStore.antt =====
-- src/server/memory/memory.cc: blobs by id, each with the memory that it owns.
pub mod Owned
pub mod Invariant
pub mod Requests
pub mod Tests
use libvineyard.Base.{
  ℕ, ◌*◌, to_list, ◌++◌, ◌^◌, Bool, Option, none, some, List, [], ◌∷◌, arith, ◌==◌, if◌then◌else◌,
  sub64,
}
use libvineyard.Base.Table.{Table, lookup, contains, emplace, erase}
use libvineyard.Common.Status.{Status, ok, object_not_exists, not_enough_memory}
use libvineyard.Common.Uuid.{generate_blob_id}
use libvineyard.Memory.Malloc.{Malloc, Mapinfo, get_malloc_mapinfo}
use libvineyard.Memory.Allocator
use libvineyard.Memory.Allocator.{Allocator}

-- `struct Payload` (src/common/memory/payload.h).
pub record Payload : Type 0 where
  pub object_id : ℕ
  pub store_fd : ℕ
  pub data_offset : ℕ
  pub data_size : ℕ
  pub map_size : ℕ
  pub pointer : ℕ

-- `BulkStore::objects_`, beside the allocator's statics.
pub record BulkStore (m : Malloc) : Type 0 where
  pub allocator : Allocator m
  pub objects : Table Payload

-- What `ProcessCreateRequest` answers: the id and the payload, its out-parameters, or an error.
pub data Created : Type 0 where
  created : ℕ → Payload → Created
  failed : Status → Created

-- What `ProcessGetRequest` answers.
pub data Fetched : Type 0 where
  fetched : Payload → Fetched
  missing : Status → Fetched

-- `objects_[id]`, just after `emplace`.
abbrev pub stored : Payload → Option Payload → Payload
stored made none = made
stored made (some p) = p

abbrev block_size : ℕ
block_size = 64

module _ {m : Malloc} where
  unfoldable pub pre_allocate : ℕ → BulkStore m → Status × BulkStore m
  pre_allocate size s =
      let limited = Allocator.set_footprint_limit size s.allocator in
      let bytes = sub64 size (256 * 8) in
      let (pointer, a) = Allocator.memalign block_size bytes limited in
      if pointer == 0
      then (not_enough_memory, record s { allocator = a })
      else (ok, record s { allocator = Allocator.free pointer bytes a })

  -- The address, and the state after.
  unfoldable pub allocate_memory : ℕ → BulkStore m → ℕ × BulkStore m
  allocate_memory size s =
      let (pointer, a) = Allocator.memalign block_size size s.allocator in
      (pointer, record s { allocator = a })

  -- The payload that `ProcessCreateRequest` makes for the memory at `pointer`.
  abbrev pub payload_at : ℕ → ℕ → BulkStore m → Payload
  payload_at data_size pointer s =
      let i = get_malloc_mapinfo pointer (m.mmap_records s.allocator.heap) in
      record {
        object_id = generate_blob_id pointer;
        store_fd = i.fd;
        data_offset = i.offset;
        data_size = data_size;
        map_size = i.map_size;
        pointer = pointer;
      }

  unfoldable pub process_create_request : ℕ → BulkStore m → Created × BulkStore m
  unfolding allocate_memory
  process_create_request data_size s =
      let (pointer, s') = allocate_memory data_size s in
      if pointer == 0
      then (failed not_enough_memory, s')
      else (let id = generate_blob_id pointer in
          let objects = emplace id (payload_at data_size pointer s') s'.objects in
          (
            created id (stored (payload_at data_size pointer s') (lookup id objects)),
            record s' { objects = objects },
          ))

  -- `ProcessGetRequest` for one id.
  unfoldable pub process_get_request : ℕ → BulkStore m → Fetched
  process_get_request id s = elim (lookup id s.objects) [
    | none ↦ missing object_not_exists
    | some p ↦ fetched p
  ]

  -- `ProcessGetRequest` for many ids: those that are there.
  unfoldable pub process_get_requests : List ℕ → BulkStore m → List Payload
  process_get_requests [] s = []
  process_get_requests (id ∷ ids) s = to_list (lookup id s.objects) ++ process_get_requests ids s

  unfoldable pub process_delete_request : ℕ → BulkStore m → Status × BulkStore m
  process_delete_request id s = elim (lookup id s.objects) [
    | none ↦ (object_not_exists, s)
    | some p ↦ (
      ok,
      record s {
        allocator = Allocator.free p.pointer p.data_size s.allocator;
        objects = erase id s.objects;
      },
    )
  ]

  unfoldable pub footprint : BulkStore m → ℕ
  footprint s = s.allocator.allocated

  unfoldable pub footprint_limit : BulkStore m → ℕ
  footprint_limit s = s.allocator.footprint_limit
