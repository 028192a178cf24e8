-- ===== src/Memory/Malloc/Tests.antt =====
-- An allocator on which the contract of malloc holds, and a search through the mapped files.
use libvineyard.Base.{
  ℕ, ◌+◌, ◌<◌, ◌≡◌, refl, ◌≢◌, Bool, true, false, ◌||◌, List, [], ◌∷◌, arith, ◌==◌, ltb, leb,
  if◌then◌else◌, half_word,
}
use libvineyard.Memory.Malloc.{Malloc, IsMalloc, MmapRecord}

-- The heap is the list of the addresses in use; the next address is above their sum, and no more
-- than 1000 bytes can be had at once.
abbrev pub in_use : List ℕ → ℕ → Bool
in_use [] q = false
in_use (p ∷ h) q = p == q || in_use h q

abbrev sum : List ℕ → ℕ
sum [] = 0
sum (p ∷ h) = p + sum h

abbrev release : ℕ → List ℕ → List ℕ
release p [] = []
release p (q ∷ h) = let rest = release p h in if p == q then rest else q ∷ rest

abbrev next_address : ℕ → List ℕ → ℕ
next_address bytes h =
    if leb bytes 1000 then (if ltb (sum h + 1) half_word then sum h + 1 else 0) else 0

abbrev hand_out : ℕ → List ℕ → List ℕ
hand_out p h = if p == 0 then h else p ∷ h

abbrev pub mapped : List MmapRecord
mapped = record { address = 0; fd = 7; size = 4096 } ∷ []

abbrev pub sum_malloc : Malloc
sum_malloc = record {
  Heap = List ℕ;
  memalign = λ align bytes h. (next_address bytes h, hand_out (next_address bytes h) h);
  free = release;
  mmap_records = λ h. mapped;
}

in_use-le-sum : (h : List ℕ) (q : ℕ) → sum h < q → in_use h q ≡ false
in_use-le-sum [] q u = refl
in_use-le-sum (p ∷ h) q u = ground (arith, in_use-le-sum h q)

pub next_fresh :
    (bytes : ℕ) (h : List ℕ) → next_address bytes h ≢ 0 → in_use h (next_address bytes h) ≡ false
next_fresh bytes h got = ground (arith, in_use-le-sum h (sum h + 1))

pub next_small : (bytes : ℕ) (h : List ℕ) → next_address bytes h < half_word
next_small bytes h = ground arith

pub in_use-hand_out :
    (p : ℕ) (h : List ℕ) (q : ℕ)
    → p ≢ 0
    → in_use (hand_out p h) q ≡ (if p == q then true else in_use h q)
in_use-hand_out p h q got = ground arith

pub in_use-hand_out_null :
    (p : ℕ) (h : List ℕ) (q : ℕ) → p ≡ 0 → in_use (hand_out p h) q ≡ in_use h q
in_use-hand_out_null p h q null = ground arith

pub in_use-release :
    (p : ℕ) (h : List ℕ) (q : ℕ) → in_use (release p h) q ≡ (if p == q then false else in_use h q)
in_use-release p [] q = ground arith
in_use-release p (r ∷ h) q = ground (arith, in_use-release p h q)

abbrev pub sum_malloc-IsMalloc : IsMalloc sum_malloc
sum_malloc-IsMalloc = record {
  live = in_use;
  fresh = λ align bytes h got. next_fresh bytes h got;
  in_user_space = λ align bytes h. next_small bytes h;
  live-memalign = λ align bytes h q got. in_use-hand_out (next_address bytes h) h q got;
  live-null = λ align bytes h q null. in_use-hand_out_null (next_address bytes h) h q null;
  live-free = in_use-release;
}
