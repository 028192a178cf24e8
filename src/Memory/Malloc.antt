-- ===== src/Memory/Malloc.antt =====
-- What src/server/memory asks of dlmalloc (thirdparty/dlmalloc), and malloc.cc: the search through
-- the memory-mapped files that dlmalloc got from the system.
pub mod Tests
use libvineyard.Base.{
  ℕ, ◌+◌, ◌-◌, ◌^◌, ◌≤◌, ◌<◌, ◌≡◌, refl, ◌≢◌, ◌⊎◌, inl, inr, Bool, true, false, ◌&&◌, List, [], ◌∷◌,
  arith, leb, ltb, ◌==◌, if◌then◌else◌, half_word,
}

-- `struct MmapRecord`, with the address that is its key in `mmap_records`.
pub record MmapRecord : Type 0 where
  pub address : ℕ
  pub fd : ℕ
  pub size : ℕ

-- `memalign` is `dlmemalign(alignment, bytes)`, which answers 0 for no memory, and `free` is
-- `dlfree`. `mmap_records` is what the calls back into dlmalloc.cc have recorded.
pub record Malloc : Type 1 where
  pub Heap : Type 0
  pub memalign : ℕ → ℕ → Heap → ℕ × Heap
  pub free : ℕ → Heap → Heap
  pub mmap_records : Heap → List MmapRecord

-- What malloc's contract promises, with `live` the addresses that are handed out: a new address is
-- not in use, lies in user space, and is in use until it is freed.
pub record IsMalloc (m : Malloc) : Type 0 where
  pub live : m.Heap → ℕ → Bool
  pub fresh :
      (align bytes : ℕ) (h : m.Heap)
      → (m.memalign align bytes h).0 ≢ 0
      → live h (m.memalign align bytes h).0 ≡ false
  pub in_user_space : (align bytes : ℕ) (h : m.Heap) → (m.memalign align bytes h).0 < half_word
  pub live-memalign :
      (align bytes : ℕ) (h : m.Heap) (q : ℕ)
      → (m.memalign align bytes h).0 ≢ 0
      → live (m.memalign align bytes h).1 q
        ≡ (if (m.memalign align bytes h).0 == q then true else live h q)
  pub live-null :
      (align bytes : ℕ) (h : m.Heap) (q : ℕ)
      → (m.memalign align bytes h).0 ≡ 0
      → live (m.memalign align bytes h).1 q ≡ live h q
  pub live-free :
      (p : ℕ) (h : m.Heap) (q : ℕ) → live (m.free p h) q ≡ (if p == q then false else live h q)

pub record Mapinfo : Type 0 where
  pub fd : ℕ
  pub map_size : ℕ
  pub offset : ℕ

-- The bit pattern of the `int` -1.
abbrev pub no_fd : ℕ
no_fd = 2 ^ 32 - 1

-- `GetMallocMapinfo`, over the records in the order in which the map lists them.
unfoldable pub get_malloc_mapinfo : ℕ → List MmapRecord → Mapinfo
get_malloc_mapinfo addr [] = record { fd = no_fd; map_size = 0; offset = 0 }
get_malloc_mapinfo addr (entry ∷ records) =
    let rest = get_malloc_mapinfo addr records in
    if leb entry.address addr && ltb addr (entry.address + entry.size)
    then record { fd = entry.fd; map_size = entry.size; offset = addr - entry.address }
    else rest

-- Some record holds the address, with this file, size and distance.
abbrev pub Maps : ℕ → Mapinfo → List MmapRecord → Type 0
Maps addr i [] = ⊥
Maps addr i (entry ∷ records) =
    ((entry.fd ≡ i.fd)
      × (entry.size ≡ i.map_size)
      × (entry.address + i.offset ≡ addr)
      × (i.offset < i.map_size))
    ⊎ Maps addr i records

abbrev pub Unmapped : ℕ → List MmapRecord → Type 0
Unmapped addr [] = Unit
Unmapped addr (entry ∷ records) =
    ((addr < entry.address) ⊎ (entry.address + entry.size ≤ addr)) × Unmapped addr records

-- The answer names a record that holds the address and where in it, or is (-1, 0, 0), and then no
-- record holds the address.
pub get_malloc_mapinfo_lem :
    (addr : ℕ) (records : List MmapRecord)
    → Maps addr (get_malloc_mapinfo addr records) records
      ⊎ (Unmapped addr records
          × (get_malloc_mapinfo addr records ≡ record { fd = no_fd; map_size = 0; offset = 0 }))
unfolding get_malloc_mapinfo
get_malloc_mapinfo_lem addr [] = inr (tt, refl)
get_malloc_mapinfo_lem addr (entry ∷ records) = ground (arith, get_malloc_mapinfo_lem addr records)
