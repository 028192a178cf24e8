-- ===== src/Base/Table.antt =====
-- `std::unordered_map` with numbers for keys, as an association list: the first entry of a key counts.
use package.libvineyard.Base.Tests.{◌==◌, if◌then◌else◌, is_set}
use Prim.Native.Nat.{ℕ}
use mathlib.Core.Path.{◌≡◌, refl}
use mathlib.Core.Bool.{Bool}
use mathlib.Core.Option.{Option, none, some}
use mathlib.Core.List.{List, [], ◌∷◌}
use native.Mathlib.Omega.{arith}

abbrev pub Table {ℓ} : Type ℓ → Type ℓ
Table V = List (ℕ × V)

module _ {ℓ} {V : Type ℓ} where
  unfoldable pub lookup : ℕ → Table V → Option V
  lookup k [] = none
  lookup k ((j, v) ∷ m) = if j == k then some v else lookup k m

  -- `m.find(k) != m.end()`
  abbrev pub contains : ℕ → Table V → Bool
  contains k m = is_set (lookup k m)

  -- `m.emplace(k, v)` keeps what is there.
  abbrev pub emplace : ℕ → V → Table V → Table V
  emplace k v m = if contains k m then m else (k, v) ∷ m

  -- A write through the pointer or reference that is stored under `k`.
  unfoldable pub update : ℕ → V → Table V → Table V
  update k v [] = []
  update k v ((j, w) ∷ m) = if j == k then (j, v) ∷ m else (j, w) ∷ update k v m

  unfoldable pub erase : ℕ → Table V → Table V
  erase k [] = []
  erase k ((j, v) ∷ m) = let rest = erase k m in if j == k then rest else (j, v) ∷ rest

  pub lookup-erase :
      (j k : ℕ) (m : Table V) → lookup j (erase k m) ≡ (if j == k then none else lookup j m)
  unfolding lookup erase
  lookup-erase j k [] = ground arith
  lookup-erase j k ((i, v) ∷ m) = ground (arith, lookup-erase j k m)

  pub lookup-update :
      (j k : ℕ) (v : V) (m : Table V)
      → lookup j (update k v m)
        ≡ (if j == k then (if contains k m then some v else none) else lookup j m)
  unfolding lookup update
  lookup-update j k v [] = ground arith
  lookup-update j k v ((i, w) ∷ m) = ground (arith, lookup-update j k v m)

  pub lookup-cons :
      (j k : ℕ) (v : V) (m : Table V)
      → lookup j ((k, v) ∷ m) ≡ (if k == j then some v else lookup j m)
  unfolding lookup
  lookup-cons j k v m = refl

  pub lookup-cons_self : (k : ℕ) (v : V) (m : Table V) → lookup k ((k, v) ∷ m) ≡ some v
  unfolding lookup
  lookup-cons_self k v m = ground arith
