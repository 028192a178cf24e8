-- ===== src/Base/Multimap.antt =====
-- `std::multimap` and `std::set` of numbers. A multimap is the list of its pairs, those of one key in
-- the order of their insertion; a set is an ascending list.
use package.libvineyard.Base.Tests.{◌==◌, ltb, if◌then◌else◌}
use Prim.Native.Nat.{ℕ}
use mathlib.Core.Path.{◌≡◌, refl}
use mathlib.Core.Bool.{Bool, false, ◌&&◌, ◌||◌}
use mathlib.Core.List.{List, [], ◌∷◌, ◌++◌}
use native.Mathlib.Omega.{arith}

abbrev pub Multimap : Type 0
Multimap = List (ℕ × ℕ)

-- `set.find(x) != set.end()`
unfoldable pub member : ℕ → List ℕ → Bool
member x [] = false
member x (y ∷ ys) = y == x || member x ys

-- `set.emplace(x)`
unfoldable pub insert : ℕ → List ℕ → List ℕ
insert x [] = x ∷ []
insert x (y ∷ ys) =
    let rest = insert x ys in if y == x then y ∷ ys else if ltb x y then x ∷ y ∷ ys else y ∷ rest

-- `set.erase(x)`
unfoldable pub remove : ℕ → List ℕ → List ℕ
remove x [] = []
remove x (y ∷ ys) = let rest = remove x ys in if y == x then rest else y ∷ rest

-- The values of `m.equal_range(k)`.
unfoldable pub equal_range : ℕ → Multimap → List ℕ
equal_range k [] = []
equal_range k ((j, v) ∷ m) = let rest = equal_range k m in if j == k then v ∷ rest else rest

-- `m.erase(k)`
unfoldable pub erase_key : ℕ → Multimap → Multimap
erase_key k [] = []
erase_key k ((j, v) ∷ m) = let rest = erase_key k m in if j == k then rest else (j, v) ∷ rest

-- The loop that erases the pairs of a key that have the value.
unfoldable pub erase_pair : ℕ → ℕ → Multimap → Multimap
erase_pair k v [] = []
erase_pair k v ((j, w) ∷ m) =
    let rest = erase_pair k v m in if j == k && w == v then rest else (j, w) ∷ rest

-- The loop that looks for the value among those of the key, before `emplace`.
unfoldable pub has_pair : ℕ → ℕ → Multimap → Bool
has_pair k v m = member v (equal_range k m)

pub member-insert : (x y : ℕ) (ys : List ℕ) → member x (insert y ys) ≡ (y == x || member x ys)
unfolding member insert
member-insert x y [] = ground arith
member-insert x y (z ∷ zs) = ground (arith, member-insert x y zs)

pub member-append : (x : ℕ) (ys zs : List ℕ) → member x (ys ++ zs) ≡ (member x ys || member x zs)
unfolding member
member-append x [] zs = refl
member-append x (y ∷ ys) zs = ground (arith, member-append x ys zs)

pub has_pair-append :
    (k v : ℕ) (m n : Multimap) → has_pair k v (m ++ n) ≡ (has_pair k v m || has_pair k v n)
unfolding has_pair equal_range member
has_pair-append k v [] n = refl
has_pair-append k v ((j, w) ∷ m) n = ground (arith, has_pair-append k v m n)

pub has_pair-erase_key :
    (k v j : ℕ) (m : Multimap)
    → has_pair k v (erase_key j m) ≡ (if j == k then false else has_pair k v m)
unfolding has_pair equal_range member erase_key
has_pair-erase_key k v j [] = ground arith
has_pair-erase_key k v j ((i, w) ∷ m) = ground (arith, has_pair-erase_key k v j m)

pub has_pair-erase_pair :
    (k v j w : ℕ) (m : Multimap)
    → has_pair k v (erase_pair j w m) ≡ (if j == k && w == v then false else has_pair k v m)
unfolding has_pair equal_range member erase_pair
has_pair-erase_pair k v j w [] = ground arith
has_pair-erase_pair k v j w ((i, u) ∷ m) = ground (arith, has_pair-erase_pair k v j w m)
