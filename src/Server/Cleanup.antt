-- ===== src/Server/Cleanup.antt =====
-- `DeleteBlobBatch`: the blobs whose metadata is gone are deleted from the store.
use libvineyard.Base.{ℕ, ◌≡◌, refl, ◌∙◌, List, [], ◌∷◌, ◌==◌, if◌then◌else◌, arith}
use libvineyard.Base.Multimap.{member}
use libvineyard.Base.Table.{lookup-erase}
use libvineyard.Common.Status.{object_not_exists}
use libvineyard.Memory.Malloc.{Malloc, IsMalloc}
use libvineyard.Memory.BulkStore.{BulkStore, missing, process_get_request, process_delete_request}
use libvineyard.Memory.BulkStore.Invariant.{IsConsistent, process_delete_request-IsConsistent}

-- The status of each request is suppressed.
unfoldable pub delete_blob_batch : {m : Malloc} → List ℕ → BulkStore m → BulkStore m
delete_blob_batch [] s = s
delete_blob_batch (id ∷ ids) s = delete_blob_batch ids (process_delete_request id s).1

module _ {m : Malloc} where
  get-delete :
      (j id : ℕ) (s : BulkStore m)
      → process_get_request j (process_delete_request id s).1
        ≡ (if id == j then missing object_not_exists else process_get_request j s)
  unfolding process_get_request process_delete_request
  get-delete j id s = ground (arith, lookup-erase j id s.objects)

  get-batch :
      (j : ℕ) (ids : List ℕ) (s : BulkStore m)
      → process_get_request j (delete_blob_batch ids s)
        ≡ (if member j ids then missing object_not_exists else process_get_request j s)
  unfolding delete_blob_batch member
  get-batch j [] s = refl
  get-batch j (id ∷ ids) s =
      get-batch j ids (process_delete_request id s).1 ∙ ground (arith, get-delete j id s)

  -- A batch of blobs, some of which may be gone already, is deleted from the store, and nothing else
  -- is; a consistent store stays consistent.
  pub delete_blob_batch_lem :
      (laws : IsMalloc m) (ids : List ℕ) (s : BulkStore m)
      → IsConsistent laws s
      → IsConsistent laws (delete_blob_batch ids s)
        × ((j : ℕ)
            → process_get_request j (delete_blob_batch ids s)
              ≡ (if member j ids then missing object_not_exists else process_get_request j s))
  unfolding delete_blob_batch
  delete_blob_batch_lem laws [] s h = (h, (λ j. get-batch j [] s))
  delete_blob_batch_lem laws (id ∷ ids) s h = (
    (delete_blob_batch_lem laws ids (process_delete_request id s).1
        (process_delete_request-IsConsistent laws id s h)).0,
    (λ j. get-batch j (id ∷ ids) s),
  )
