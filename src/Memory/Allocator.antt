-- ===== src/Memory/Allocator.antt =====
-- src/server/memory/allocator.cc: dlmalloc under a limit, with a count of the bytes handed out.
use libvineyard.Base.{ℕ, if◌then◌else◌, add64, sub64, slt64}
use libvineyard.Memory.Malloc.{Malloc}

-- The static members of `BulkAllocator`, int64_t each, and dlmalloc's state.
pub record Allocator (m : Malloc) : Type 0 where
  pub heap : m.Heap
  pub footprint_limit : ℕ
  pub allocated : ℕ

module _ {m : Malloc} where
  -- The count grows also where dlmalloc has no memory.
  unfoldable pub memalign : ℕ → ℕ → Allocator m → ℕ × Allocator m
  memalign alignment bytes a =
      if slt64 a.footprint_limit (add64 a.allocated bytes)
      then (0, a)
      else (let (mem, heap') = m.memalign alignment bytes a.heap in
          (mem, record a { heap = heap'; allocated = add64 a.allocated bytes }))

  unfoldable pub free : ℕ → ℕ → Allocator m → Allocator m
  free mem bytes a = record a { heap = m.free mem a.heap; allocated = sub64 a.allocated bytes }

  unfoldable pub set_footprint_limit : ℕ → Allocator m → Allocator m
  set_footprint_limit bytes a = record a { footprint_limit = bytes }
