-- ===== src/Memory/BulkStore/Requests.antt =====
-- What the requests to `BulkStore` mean to their clients.
use libvineyard.Base.{
  ℕ, All, ◌+◌, ◌^◌, ◌≤◌, ◌<◌, ◌≡◌, refl, sym, ◌∙◌, ◌≢◌, true, none, some, List, [], ◌∷◌, arith, inl,
  inr, ◌⊎◌, half_word,
}
use libvineyard.Base.Table.{lookup, erase, lookup-cons, lookup-cons_self, lookup-erase}
use libvineyard.Common.Status.{ok, object_not_exists, not_enough_memory}
use libvineyard.Common.Uuid.{is_blob}
use libvineyard.Common.Uuid.Laws.{generate_blob_id-add, blob_id_roundtrip}
use libvineyard.Memory.Malloc.{Malloc, IsMalloc}
use libvineyard.Memory.Allocator.{free}
use libvineyard.Memory.BulkStore.{
  BulkStore, Payload, Created, created, failed, fetched, missing, process_create_request,
  process_get_request, process_delete_request, footprint,
}
use libvineyard.Memory.BulkStore.Owned.{total-erase}
use libvineyard.Memory.BulkStore.Invariant.{
  IsConsistent, process_create_request-Creates, process_create_request-IsConsistent,
  process_delete_request-IsConsistent,
}

created_fields :
    {m : Malloc} {id id' : ℕ} {p p' : Payload} {s s' : BulkStore m}
    → ◌≡◌ {A = Created × BulkStore m} (created id p, s) (created id' p', s')
    → (id ≡ id') × (p ≡ p') × (s ≡ s')
created_fields e = (cc, cc, cc)

-- What the clients of a new object see.
abbrev pub Serves : {m : Malloc} → ℕ → ℕ → Payload → BulkStore m → BulkStore m → Type 0
Serves data_size id p s s' =
    (process_get_request id s' ≡ fetched p)
    × (process_get_request id s ≡ missing object_not_exists)
    × (is_blob id ≡ true)
    × (p.object_id ≡ id)
    × (p.data_size ≡ data_size)
    × ((j : ℕ) → j ≢ id → process_get_request j s' ≡ process_get_request j s)
    × (footprint s' ≡ footprint s + data_size)

new_object :
    {m : Malloc} (data_size ptr : ℕ) (p : Payload) (s s' : BulkStore m)
    → ptr < half_word
    → p.object_id ≡ half_word + ptr
    → p.data_size ≡ data_size
    → s'.objects ≡ (half_word + ptr, p) ∷ s.objects
    → s'.allocator.allocated ≡ s.allocator.allocated + data_size
    → lookup (half_word + ptr) s.objects ≡ none
    → Serves data_size (half_word + ptr) p s s'
unfolding process_get_request footprint
new_object data_size ptr p s s' user id size objects count fresh = (
  rw (objects, lookup-cons_self, process_get_request) refl,
  rw (fresh, process_get_request) refl,
  rw (← generate_blob_id-add ptr user) (blob_id_roundtrip ptr 0 user).1,
  id,
  size,
  (λ j ne. ground (arith, lookup-cons j (half_word + ptr) p s.objects)),
  count,
)

module _ {m : Malloc} where
  -- The store without the object p.
  abbrev removed : ℕ → BulkStore m → Payload → BulkStore m
  removed id s p = record s {
    allocator = free p.pointer p.data_size s.allocator;
    objects = erase id s.objects;
  }

  -- A create request fails for one reason.
  pub create_result :
      (data_size : ℕ) (s : BulkStore m)
      → let r = (process_create_request data_size s).0 in
        (r ≡ failed not_enough_memory) ⊎ ((id : ℕ) × (p : Payload) × (r ≡ created id p))
  unfolding process_create_request
  create_result data_size s = ground arith

  get_found :
      (id : ℕ) (s : BulkStore m) (p : Payload)
      → process_get_request id s ≡ fetched p
      → lookup id s.objects ≡ some p
  unfolding process_get_request
  get_found id s p g = ground arith

  delete_found :
      (id : ℕ) (s : BulkStore m) (p : Payload)
      → lookup id s.objects ≡ some p
      → process_delete_request id s ≡ (ok, removed id s p)
  unfolding process_delete_request
  delete_found id s p found = rw (found, process_delete_request)

  get_removed :
      (id : ℕ) (s : BulkStore m) (p : Payload)
      → process_get_request id (removed id s p) ≡ missing object_not_exists
  unfolding process_get_request
  get_removed id s p = ground (arith, lookup-erase id id s.objects)

  get_removed_other :
      (id : ℕ) (s : BulkStore m) (p : Payload) (j : ℕ)
      → j ≢ id
      → process_get_request j (removed id s p) ≡ process_get_request j s
  unfolding process_get_request
  get_removed_other id s p j ne = ground (arith, lookup-erase j id s.objects)

  delete_removed :
      (id : ℕ) (s : BulkStore m) (p : Payload)
      → process_delete_request id (removed id s p) ≡ (object_not_exists, removed id s p)
  unfolding process_delete_request
  delete_removed id s p =
      let gone : lookup id (erase id s.objects) ≡ none =
        ground (arith, lookup-erase id id s.objects) in
      rw (gone, process_delete_request)

  footprint-removed :
      (laws : IsMalloc m) (id : ℕ) (s : BulkStore m) (p : Payload)
      → IsConsistent laws s
      → lookup id s.objects ≡ some p
      → footprint (removed id s p) + p.data_size ≡ footprint s
  unfolding footprint free
  footprint-removed laws id s p h found =
      let sum = total-erase _ id p s.objects h.owned found in
      ground (arith, sum, h.counted, h.within, h.small)

module _ {m : Malloc} (laws : IsMalloc m) where
  -- A blob that a create request of less than 2^62 bytes has made can be had by its id, which is a
  -- blob's and was free, with the size that was asked for; every other blob is as before, and the
  -- footprint grows by the size.
  pub create-get :
      (data_size : ℕ) (s s' : BulkStore m) (id : ℕ) (p : Payload)
      → data_size < 2 ^ 62
      → IsConsistent laws s
      → process_create_request data_size s ≡ (created id p, s')
      → Serves data_size id p s s'
  create-get data_size s s' id p small h e =
      elim (process_create_request-Creates laws data_size s small h) [
        | inl (r, over) ↦ cc
        | inr (inl (r, fits, null)) ↦ cc
        | inr (inr (r, fits, got, fresh)) ↦
            let (same_id, same_payload, same_store) = created_fields (sym e ∙ r) in
            rw (same_id, same_payload, same_store)
              (new_object data_size _ _ s _ (laws.in_user_space 64 data_size s.allocator.heap) refl
                refl refl refl fresh)
      ]

  -- A delete request for a blob that is there succeeds. Then the blob is gone, and only that one,
  -- its memory is counted off, and a second delete request for the id fails and changes nothing.
  pub delete_get :
      (s : BulkStore m) (id : ℕ) (p : Payload)
      → IsConsistent laws s
      → process_get_request id s ≡ fetched p
      → let (status, s') = process_delete_request id s in
        (status ≡ ok)
        × (process_get_request id s' ≡ missing object_not_exists)
        × ((j : ℕ) → j ≢ id → process_get_request j s' ≡ process_get_request j s)
        × (footprint s' + p.data_size ≡ footprint s)
        × (process_delete_request id s' ≡ (object_not_exists, s'))
  delete_get s id p h g =
      let found = get_found id s p g in
      rw (delete_found id s p found) (
        refl,
        get_removed id s p,
        get_removed_other id s p,
        footprint-removed laws id s p h found,
        delete_removed id s p,
      )

  -- Where dlmalloc has no memory for a request within the limit, the request fails, but its bytes
  -- stay on the footprint, although no blob owns them.
  pub create_leaks :
      (data_size : ℕ) (s : BulkStore m)
      → data_size < 2 ^ 62
      → IsConsistent laws s
      → footprint s + data_size ≤ s.allocator.footprint_limit
      → (m.memalign 64 data_size s.allocator.heap).0 ≡ 0
      → ((process_create_request data_size s).0 ≡ failed not_enough_memory)
        × ((process_create_request data_size s).1.objects ≡ s.objects)
        × (footprint (process_create_request data_size s).1 ≡ footprint s + data_size)
  unfolding footprint
  create_leaks data_size s small h fits null =
      elim (process_create_request-Creates laws data_size s small h) [
        | inl (r, over) ↦ absurd (omega arith)
        | inr (inl (r, fits', null')) ↦ rw r (refl, refl, refl)
        | inr (inr (r, fits', got, fresh)) ↦ absurd (got null)
      ]

-- A client's request. A get request changes nothing.
pub data Request : Type 0 where
  create get remove : ℕ → Request

module _ {m : Malloc} where
  pub serve : BulkStore m → Request → BulkStore m
  serve s (create data_size) = (process_create_request data_size s).1
  serve s (get id) = s
  serve s (remove id) = (process_delete_request id s).1

  pub serve_all : BulkStore m → List Request → BulkStore m
  serve_all s [] = s
  serve_all s (r ∷ rs) = serve_all (serve s r) rs

abbrev pub IsSmall : Request → Type 0
IsSmall (create data_size) = data_size < 2 ^ 62
IsSmall _ = Unit

-- Whatever create, get and delete requests a consistent store serves, none to create 2^62 bytes or
-- more, it stays consistent: each blob owns live memory under the id of its address, and the footprint
-- covers all of them within the limit.
pub serve_all-IsConsistent :
    {m : Malloc} (laws : IsMalloc m) (s : BulkStore m) (rs : List Request)
    → All IsSmall rs
    → IsConsistent laws s
    → IsConsistent laws (serve_all s rs)
unfolding serve_all serve
serve_all-IsConsistent laws s [] small h = h
serve_all-IsConsistent laws s (create data_size ∷ rs) small h =
    serve_all-IsConsistent laws (process_create_request data_size s).1 rs small.1
      (process_create_request-IsConsistent laws data_size s small.0 h)
serve_all-IsConsistent laws s (get id ∷ rs) small h = serve_all-IsConsistent laws s rs small.1 h
serve_all-IsConsistent laws s (remove id ∷ rs) small h =
    serve_all-IsConsistent laws (process_delete_request id s).1 rs small.1
      (process_delete_request-IsConsistent laws id s h)
