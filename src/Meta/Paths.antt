-- ===== src/Meta/Paths.antt =====
-- The text that the metadata service works with: keys are paths with dots between their parts.
use libvineyard.Base.{
  zero, suc, ◌+◌, ◌/◌, ◌%◌, ltb, ◌++◌, ℕ, Bool, true, false, ◌&&◌, ◌||◌, Option, none, some, List,
  [], ◌∷◌, ◌==◌, leb, if◌then◌else◌, Text,
}

-- `==` on strings
unfoldable pub text_eq : Text → Text → Bool
text_eq [] [] = true
text_eq [] (d ∷ t) = false
text_eq (c ∷ s) [] = false
text_eq (c ∷ s) (d ∷ t) = let rest = text_eq s t in c == d && rest

-- `s.find(c) != npos`
unfoldable pub has_char : ℕ → Text → Bool
has_char c [] = false
has_char c (d ∷ s) = d == c || has_char c s

-- What stands before and after the first c.
unfoldable pub cut_at : ℕ → Text → Option (Text × Text)
cut_at c [] = none
cut_at c (d ∷ s) =
    let rest = cut_at c s in
    if d == c
    then some ([], s)
    else elim rest [ none ↦ none | some (before, after) ↦ some (d ∷ before, after) ]

-- `s.substr(0, s.find(c))`: all of it if there is no c.
unfoldable pub before_char : ℕ → Text → Text
before_char c [] = []
before_char c (d ∷ s) = let rest = before_char c s in if d == c then [] else d ∷ rest

-- `boost::split` at dots: the first part and the others.
unfoldable pub split_dots : Text → Text × List Text
split_dots [] = ([], [])
split_dots (c ∷ s) =
    let (part, parts) = split_dots s in if c == b'.' then ([], part ∷ parts) else (c ∷ part, parts)

-- `vs[vs.size() - 2]`, of two parts or more.
unfoldable pub penultimate : Text → List Text → Text
penultimate v [] = v
penultimate v (w ∷ []) = v
penultimate v (w ∷ x ∷ vs) = penultimate w (x ∷ vs)

unfoldable pub starts_with : Text → Text → Bool
starts_with [] s = true
starts_with (c ∷ p) [] = false
starts_with (c ∷ p) (d ∷ s) = let rest = starts_with p s in c == d && rest

-- `trim_copy(s).empty()`
unfoldable pub is_blank : Text → Bool
is_blank [] = true
is_blank (c ∷ s) = let rest = is_blank s in (c == 32 || leb 9 c && leb c 13) && rest

-- What stands before and after the last dot, if there is one.
unfoldable pub cut_at_last : Text → Option (Text × Text)
cut_at_last [] = none
cut_at_last (c ∷ s) =
    let rest = cut_at_last s in
    elim rest [
      | none ↦ if c == b'.' then some ([], s) else none
      | some (before, after) ↦ some (c ∷ before, after)
    ]

-- `std::to_string`, of at most 20 digits.
unfoldable pub decimal : ℕ → ℕ → Text
decimal zero n = []
decimal (suc fuel) n =
    let rest = decimal fuel (n / 10) in
    if ltb n 10 then (b'0' + n) ∷ [] else rest ++ (b'0' + n % 10) ∷ []

abbrev pub to_string : ℕ → Text
to_string n = decimal 20 n
