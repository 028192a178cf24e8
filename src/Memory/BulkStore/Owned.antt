-- ===== src/Memory/BulkStore/Owned.antt =====
-- The object table of `BulkStore`: each object owns memory that is in use, under the id of its
-- address, and what it takes of the total.
use libvineyard.Base.{
  ℕ, ◌+◌, ◌<◌, ◌≡◌, refl, Bool, true, false, none, some, [], ◌∷◌, arith, ◌==◌, if◌then◌else◌,
  half_word,
}
use libvineyard.Base.Table.{Table, lookup, erase}
use libvineyard.Memory.BulkStore.{Payload}

abbrev pub total : Table Payload → ℕ
total [] = 0
total ((k, p) ∷ m) = p.data_size + total m

abbrev pub Owned : (ℕ → Bool) → Table Payload → Type 0
Owned live [] = Unit
Owned live ((k, p) ∷ m) =
    (k ≡ half_word + p.pointer)
    × (p.object_id ≡ k)
    × (p.pointer < half_word)
    × (live p.pointer ≡ true)
    × (lookup k m ≡ none)
    × Owned live m

pub lookup_fresh :
    (live : ℕ → Bool) (p : ℕ) (t : Table Payload)
    → Owned live t
    → live p ≡ false
    → lookup (half_word + p) t ≡ none
unfolding lookup
lookup_fresh live p [] o f = refl
lookup_fresh live p ((k, v) ∷ t) o f = ground (arith, lookup_fresh live p t o.5 f)

pub Owned-grow :
    (live live' : ℕ → Bool) (t : Table Payload)
    → ((q : ℕ) → live q ≡ true → live' q ≡ true)
    → Owned live t
    → Owned live' t
Owned-grow live live' [] up o = tt
Owned-grow live live' ((k, v) ∷ t) up o =
    (o.0, o.1, o.2, up v.pointer o.3, o.4, Owned-grow live live' t up o.5)

erase_missing : (k : ℕ) (t : Table Payload) → lookup k t ≡ none → erase k t ≡ t
unfolding lookup erase
erase_missing k [] h = refl
erase_missing k ((j, v) ∷ t) h = ground (arith, erase_missing k t)

lookup-erase_missing :
    (j k : ℕ) (t : Table Payload) → lookup j t ≡ none → lookup j (erase k t) ≡ none
unfolding lookup erase
lookup-erase_missing j k [] h = refl
lookup-erase_missing j k ((i, v) ∷ t) h = ground (arith, lookup-erase_missing j k t)

pub total-erase :
    (live : ℕ → Bool) (k : ℕ) (p : Payload) (t : Table Payload)
    → Owned live t
    → lookup k t ≡ some p
    → total (erase k t) + p.data_size ≡ total t
unfolding lookup erase
total-erase live k p [] o h = cc
total-erase live k p ((j, v) ∷ t) o h =
    ground (arith, total-erase live k p t o.5, erase_missing k t)

pub lookup-Owned :
    (live : ℕ → Bool) (k : ℕ) (p : Payload) (t : Table Payload)
    → Owned live t
    → lookup k t ≡ some p
    → (k ≡ half_word + p.pointer) × (p.object_id ≡ k)
unfolding lookup
lookup-Owned live k p [] o h = cc
lookup-Owned live k p ((j, v) ∷ t) o h = ground (arith, lookup-Owned live k p t o.5)

pub Owned-erase :
    (live live' : ℕ → Bool) (p : ℕ) (t : Table Payload)
    → ((q : ℕ) → live' q ≡ (if p == q then false else live q))
    → Owned live t
    → Owned live' (erase (half_word + p) t)
unfolding erase
Owned-erase live live' p [] freed o = tt
Owned-erase live live' p ((k, v) ∷ t) freed o = ground (
  arith,
  freed v.pointer,
  Owned-erase live live' p t freed o.5,
  lookup-erase_missing k (half_word + p) t,
)
