-- ===== src/Memory/BulkStore/Invariant.antt =====
-- The invariant of `BulkStore`: each object owns memory that is in use, under the id of its address,
-- and the count of `BulkAllocator` covers them all and stays within the limit.
use libvineyard.Base.{
  ℕ, ◌+◌, ◌^◌, ◌≤◌, ◌<◌, ◌≡◌, refl, ◌≢◌, none, ◌∷◌, arith, ◌==◌, Bool-cases, Option-cases, inl, inr,
  ==_iff, ◌⊎◌, ◌∙◌, half_word,
}
use libvineyard.Base.Table.{Table, lookup, lookup-cons_self}
use libvineyard.Common.Uuid.Laws.{generate_blob_id-add}
use libvineyard.Memory.Malloc.{Malloc, IsMalloc}
use libvineyard.Memory.Allocator.{Allocator, memalign, free}
use libvineyard.Memory.BulkStore.{
  BulkStore, Payload, process_create_request, process_delete_request, Created, created, failed,
  payload_at,
}
use libvineyard.Common.Status.{not_enough_memory}
use libvineyard.Memory.BulkStore.Owned.{
  total, Owned, lookup_fresh, Owned-grow, total-erase, lookup-Owned, Owned-erase,
}

pub record IsConsistent {m : Malloc} (laws : IsMalloc m) (s : BulkStore m) : Type 0 where
  pub owned : Owned (laws.live s.allocator.heap) s.objects
  pub counted : total s.objects ≤ s.allocator.allocated
  pub within : s.allocator.allocated ≤ s.allocator.footprint_limit
  pub small : s.allocator.footprint_limit < 2 ^ 62

-- Below 2^62 nothing overflows: the request is refused at the limit, or dlmalloc's answer counts.
pub memalign_cases :
    {m : Malloc} (align bytes : ℕ) (a : Allocator m)
    → bytes < 2 ^ 62
    → a.allocated ≤ a.footprint_limit
    → a.footprint_limit < 2 ^ 62
    → ((memalign align bytes a ≡ (0, a)) × (a.footprint_limit < a.allocated + bytes))
      ⊎ ((memalign align bytes a ≡ (
        (m.memalign align bytes a.heap).0,
        record a { heap = (m.memalign align bytes a.heap).1; allocated = a.allocated + bytes },
      ))
          × (a.allocated + bytes ≤ a.footprint_limit))
unfolding memalign
memalign_cases align bytes a small within limit = ground arith

module _ {m : Malloc} (laws : IsMalloc m) where
  Owned-memalign :
      (align bytes : ℕ) (heap : m.Heap) (t : Table Payload)
      → Owned (laws.live heap) t
      → Owned (laws.live (m.memalign align bytes heap).1) t
  Owned-memalign align bytes heap t o = elim (Bool-cases ((m.memalign align bytes heap).0 == 0)) [
    | inl null ↦ Owned-grow _ _ t (λ q u. laws.live-null align bytes heap q (ground arith) ∙ u) o
    | inr got ↦ Owned-grow _ _ t (λ q u. ground (arith, laws.live-memalign align bytes heap q)) o
  ]

  -- The state once dlmalloc has answered, which the count takes as a success.
  abbrev asked : ℕ → BulkStore m → BulkStore m
  asked data_size s = record s {
    allocator = record {
      heap = (m.memalign 64 data_size s.allocator.heap).1;
      footprint_limit = s.allocator.footprint_limit;
      allocated = s.allocator.allocated + data_size;
    };
  }

  abbrev address : ℕ → BulkStore m → ℕ
  address data_size s = (m.memalign 64 data_size s.allocator.heap).0

  -- What a create request can do: it is over the limit, or dlmalloc has no memory, or there is one
  -- object more, under an id that was not in use.
  abbrev pub Creates : ℕ → BulkStore m → Created × BulkStore m → Type 0
  Creates data_size s r =
      ((r ≡ (failed not_enough_memory, s))
        × (s.allocator.footprint_limit < s.allocator.allocated + data_size))
      ⊎ ((r ≡ (failed not_enough_memory, asked data_size s))
          × (s.allocator.allocated + data_size ≤ s.allocator.footprint_limit)
          × (address data_size s ≡ 0))
      ⊎ (let id = half_word + address data_size s in
          let p = record (payload_at data_size (address data_size s) (asked data_size s)) {
            object_id = id;
          } in
          (r ≡ (created id p, record (asked data_size s) { objects = (id, p) ∷ s.objects }))
          × (s.allocator.allocated + data_size ≤ s.allocator.footprint_limit)
          × (address data_size s ≢ 0)
          × (lookup id s.objects ≡ none))

  create_at :
      (data_size : ℕ) (s : BulkStore m)
      → IsConsistent laws s
      → memalign 64 data_size s.allocator ≡ (address data_size s, (asked data_size s).allocator)
      → s.allocator.allocated + data_size ≤ s.allocator.footprint_limit
      → Creates data_size s (process_create_request data_size s)
  unfolding process_create_request
  create_at data_size s h e fits = elim (Bool-cases (address data_size s == 0)) [
    | inl null ↦ inr (inl (rw (e, null, process_create_request), fits, (==_iff _ _).0 null))
    | inr got ↦
        let fresh : lookup (half_word + address data_size s) s.objects ≡ none =
          lookup_fresh _ (address data_size s) s.objects h.owned
            (laws.fresh 64 data_size s.allocator.heap (ground arith)) in
        inr (
          inr (
            rw
                (
                  e,
                  got,
                  generate_blob_id-add _ (laws.in_user_space 64 data_size s.allocator.heap),
                  fresh,
                  process_create_request,
                )
                (rw lookup-cons_self),
            fits,
            ground arith,
            fresh,
          ))
  ]

  -- No create request of less than 2^62 bytes does anything else.
  pub process_create_request-Creates :
      (data_size : ℕ) (s : BulkStore m)
      → data_size < 2 ^ 62
      → IsConsistent laws s
      → Creates data_size s (process_create_request data_size s)
  unfolding process_create_request
  process_create_request-Creates data_size s small h =
      elim (memalign_cases 64 data_size s.allocator small h.within h.small) [
        | inl (e, over) ↦ inl (rw (e, process_create_request), over)
        | inr (e, fits) ↦ create_at data_size s h e fits
      ]

  -- A create request of less than 2^62 bytes keeps the store consistent, on every branch.
  pub process_create_request-IsConsistent :
      (data_size : ℕ) (s : BulkStore m)
      → data_size < 2 ^ 62
      → IsConsistent laws s
      → IsConsistent laws (process_create_request data_size s).1
  process_create_request-IsConsistent data_size s small h =
      elim (process_create_request-Creates data_size s small h) [
        | inl (e, over) ↦ rw e h
        | inr (inl (e, fits, null)) ↦ rw e (record {
          owned = Owned-memalign 64 data_size s.allocator.heap s.objects h.owned;
          counted = omega (arith, h.counted);
          within = fits;
          small = h.small;
        })
        | inr (inr (e, fits, got, fresh)) ↦ rw e (record {
          owned = (
            refl,
            refl,
            laws.in_user_space 64 data_size s.allocator.heap,
            ground
                (arith, laws.live-memalign 64 data_size s.allocator.heap (address data_size s) got),
            fresh,
            Owned-memalign 64 data_size s.allocator.heap s.objects h.owned,
          );
          counted = omega (arith, h.counted);
          within = fits;
          small = h.small;
        })
      ]

  -- So does a delete request for any id.
  pub process_delete_request-IsConsistent :
      (id : ℕ) (s : BulkStore m)
      → IsConsistent laws s
      → IsConsistent laws (process_delete_request id s).1
  unfolding process_delete_request free
  process_delete_request-IsConsistent id s h = elim (Option-cases (lookup id s.objects)) [
    | inl gone ↦ rw (gone, process_delete_request) h
    | inr (p, found) ↦
        let sum = total-erase _ id p s.objects h.owned found in
        rw (found, process_delete_request)
          (record {
            owned = rw (lookup-Owned _ id p s.objects h.owned found).0 (
                Owned-erase _ _ p.pointer s.objects (laws.live-free p.pointer s.allocator.heap)
                  h.owned);
            counted = ground (arith, sum, h.counted, h.within, h.small);
            within = ground (arith, sum, h.counted, h.within, h.small);
            small = h.small;
          })
  ]
