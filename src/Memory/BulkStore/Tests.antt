-- ===== src/Memory/BulkStore/Tests.antt =====
-- Requests to `BulkStore` on concrete inputs.
use libvineyard.Base.{ℕ, ◌≡◌, refl, ◌≢◌, [], ◌∷◌, ◌+◌, arith, half_word}
use libvineyard.Base.Table.{lookup}
use libvineyard.Common.Status.{ok, object_not_exists, not_enough_memory}
use libvineyard.Common.Uuid.{generate_blob_id}
use libvineyard.Memory.Malloc.{get_malloc_mapinfo}
use libvineyard.Memory.Malloc.Tests.{sum_malloc, sum_malloc-IsMalloc}
use libvineyard.Memory.Allocator.{memalign}
use libvineyard.Memory.BulkStore.{
  BulkStore, Payload, created, failed, missing, process_create_request, process_get_request,
  process_delete_request, footprint,
}
use libvineyard.Memory.BulkStore.Invariant.{IsConsistent}
use libvineyard.Memory.BulkStore.Requests.{
  create-get, delete_get, create_leaks, create, get, remove, serve_all, serve_all-IsConsistent,
  Serves,
}

-- One blob of 10 bytes at address 1, under a limit of 5000 bytes.
abbrev blob : Payload
blob = record {
  object_id = half_word + 1;
  store_fd = 7;
  data_offset = 1;
  data_size = 10;
  map_size = 4096;
  pointer = 1;
}

abbrev pub small_store : BulkStore sum_malloc
small_store = record {
  allocator = record { heap = 1 ∷ []; footprint_limit = 5000; allocated = 10 };
  objects = (half_word + 1, blob) ∷ [];
}

pub small_store-IsConsistent : IsConsistent sum_malloc-IsMalloc small_store
unfolding lookup
small_store-IsConsistent = record {
  owned = (refl, refl, omega arith, refl, refl, tt);
  counted = omega arith;
  within = omega arith;
  small = omega arith;
}

abbrev second : Payload
second = record {
  object_id = half_word + 2;
  store_fd = 7;
  data_offset = 2;
  data_size = 20;
  map_size = 4096;
  pointer = 2;
}

abbrev larger_store : BulkStore sum_malloc
larger_store = record {
  allocator = record { heap = 2 ∷ 1 ∷ []; footprint_limit = 5000; allocated = 30 };
  objects = (half_word + 2, second) ∷ (half_word + 1, blob) ∷ [];
}

makes_second :
    process_create_request 20 small_store ≡ (created (half_word + 2) second, larger_store)
unfolding process_create_request memalign get_malloc_mapinfo generate_blob_id lookup
makes_second = refl

create-get_example : Serves 20 (half_word + 2) second small_store larger_store
create-get_example =
    create-get sum_malloc-IsMalloc 20 small_store larger_store (half_word + 2) second (omega arith)
      small_store-IsConsistent makes_second

delete_get_example :
    let (status, s') = process_delete_request (half_word + 1) small_store in
    (status ≡ ok)
    × (process_get_request (half_word + 1) s' ≡ missing object_not_exists)
    × ((j : ℕ) → j ≢ half_word + 1 → process_get_request j s' ≡ process_get_request j small_store)
    × (footprint s' + 10 ≡ footprint small_store)
    × (process_delete_request (half_word + 1) s' ≡ (object_not_exists, s'))
unfolding process_get_request lookup
delete_get_example =
    delete_get sum_malloc-IsMalloc small_store (half_word + 1) blob small_store-IsConsistent refl

create_leaks_example :
    ((process_create_request 2000 small_store).0 ≡ failed not_enough_memory)
    × ((process_create_request 2000 small_store).1.objects ≡ small_store.objects)
    × (footprint (process_create_request 2000 small_store).1 ≡ footprint small_store + 2000)
unfolding footprint
create_leaks_example =
    create_leaks sum_malloc-IsMalloc 2000 small_store (omega arith) small_store-IsConsistent
      (omega arith) refl

serve_all-IsConsistent_example :
    IsConsistent sum_malloc-IsMalloc
      (serve_all small_store (create 20 ∷ get 5 ∷ remove (half_word + 1) ∷ create 3000 ∷ []))
serve_all-IsConsistent_example =
    serve_all-IsConsistent sum_malloc-IsMalloc small_store
      (create 20 ∷ get 5 ∷ remove (half_word + 1) ∷ create 3000 ∷ []) (omega arith)
      small_store-IsConsistent
