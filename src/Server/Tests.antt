-- ===== src/Server/Tests.antt =====
-- The server on concrete inputs.
use libvineyard.Base.{
  ℕ, ◌+◌, Bool, true, false, not, ◌&&◌, Option, none, some, List, [], ◌∷◌, ◌==◌, if◌then◌else◌, map,
  half_word, Text, ◌≡◌, leb, ltb,
}
use libvineyard.Base.Multimap.{member}
use libvineyard.Common.Status.{object_not_exists}
use libvineyard.Memory.Malloc.Tests.{sum_malloc-IsMalloc}
use libvineyard.Memory.BulkStore.{missing, process_get_request}
use libvineyard.Memory.BulkStore.Invariant.{IsConsistent}
use libvineyard.Memory.BulkStore.Tests.{small_store, small_store-IsConsistent}
use libvineyard.Server.Startup.{
  Component, sockets, new_server, admits, each_once, meta_service, bulk_store, start_all, serves,
  startup_lem,
}
use libvineyard.Server.Deferred.{DeferredReq, process_deferred, select, process_deferred_lem}
use libvineyard.Server.Cleanup.{delete_blob_batch, delete_blob_batch_lem}

-- Both say that they are up, and the socket for other hosts cannot be opened.
abbrev announced : List Component
announced = bulk_store ∷ meta_service ∷ []

startup_lem_example :
    (admits (start_all (sockets true false) announced new_server) ≡ (true && each_once announced))
    × (serves (start_all (sockets true false) announced new_server)
        ≡ (true && false && each_once announced))
startup_lem_example = startup_lem true false announced

-- A tree is a number here, and a request waits for a greater one.
abbrev waits : ℕ → ℕ → DeferredReq ℕ ℕ
waits connection n = record {
  connection = connection;
  test_fn = λ tree. ltb n tree;
  call_fn = λ tree. tree + connection;
}

abbrev waiting : List (DeferredReq ℕ ℕ)
waiting = waits 1 5 ∷ waits 2 3 ∷ waits 3 9 ∷ []

-- The connection 1 is lost.
abbrev alive : ℕ → Bool
alive connection = not (connection == 1)

process_deferred_lem_example :
    let (kept, sent) = process_deferred alive 7 waiting in
    (kept ≡ select alive 7 (λ d. alive d.connection && not (d.test_fn 7)) waiting)
    × (sent
        ≡ map (λ d. d.call_fn 7) (select alive 7 (λ d. alive d.connection && d.test_fn 7) waiting))
    × (process_deferred alive 7 kept ≡ (kept, []))
process_deferred_lem_example = process_deferred_lem alive 7 waiting

delete_blob_batch_lem_example :
    IsConsistent sum_malloc-IsMalloc (delete_blob_batch ((half_word + 1) ∷ []) small_store)
    × ((j : ℕ)
        → process_get_request j (delete_blob_batch ((half_word + 1) ∷ []) small_store) ≡ (
            if member j ((half_word + 1) ∷ [])
            then missing object_not_exists
            else process_get_request j small_store))
delete_blob_batch_lem_example =
    delete_blob_batch_lem sum_malloc-IsMalloc ((half_word + 1) ∷ []) small_store
      small_store-IsConsistent

-- The one name is there from the tree 5 on.
abbrev find : ℕ → Text → Option ℕ
find tree name = if leb 5 tree then some 42 else none
