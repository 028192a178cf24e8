-- ===== src/Common/Ptree/Decimal.antt =====
-- The texts of numbers are plain keys, and differ.
use libvineyard.Base.{
  ℕ, zero, suc, ◌+◌, ◌*◌, ◌-◌, ◌/◌, ◌%◌, ◌<◌, ◌≤◌, ◌^◌, ◌≡◌, refl, sym, ap, subst, ◌∙◌, true, false,
  Option, some, [], ◌∷◌, ◌++◌, ltb, Bool-cases, inl, inr, Text, All, All-append, is_empty, arith,
  some-injective,
}
use libvineyard.Meta.Paths.{text_eq, has_char, to_string, decimal}
use libvineyard.Common.Ptree.{is_plain}
use libvineyard.Common.Ptree.Fields.{text_eq→≡}

-- The number that decimal digits stand for.
unfoldable pub digits : ℕ → Text → Option ℕ
digits acc [] = some acc
digits acc (c ∷ s) = digits (acc * 10 + (c - b'0')) s

digits-append :
    (acc r c : ℕ) (s : Text)
    → digits acc s ≡ some r
    → digits acc (s ++ c ∷ []) ≡ some (r * 10 + (c - b'0'))
unfolding digits
digits-append acc r c [] e = ground arith
digits-append acc r c (d ∷ s) e = digits-append (acc * 10 + (d - b'0')) r c s e

pub digits-decimal : (fuel n : ℕ) → n < 10 ^ fuel → digits 0 (decimal fuel n) ≡ some n
unfolding digits decimal
digits-decimal zero n h = ground arith
digits-decimal (suc fuel) n h = elim (Bool-cases (ltb n 10)) [
  | inl small ↦ rw small (ground arith)
  | inr large ↦
      rw
        (
          large,
          digits-append 0 (n / 10) (b'0' + n % 10) (decimal fuel (n / 10))
              (digits-decimal fuel (n / 10) (omega arith)),
        )
        (ground arith)
]

abbrev IsDigit : ℕ → Type 0
IsDigit c = (48 ≤ c) × (c ≤ 57)

decimal-IsDigit : (fuel n : ℕ) → All IsDigit (decimal fuel n)
unfolding decimal
decimal-IsDigit zero n = tt
decimal-IsDigit (suc fuel) n = elim (Bool-cases (ltb n 10)) [
  | inl small ↦ rw small ((ground arith, ground arith), tt)
  | inr large ↦ rw large (
      All-append IsDigit (decimal fuel (n / 10)) (_ ∷ []) (decimal-IsDigit fuel (n / 10))
        ((omega arith, omega arith), tt))
]

digits-no_dot : (s : Text) → All IsDigit s → has_char b'.' s ≡ false
unfolding has_char
digits-no_dot [] h = refl
digits-no_dot (c ∷ s) h = ground (arith, digits-no_dot s h.1)

snoc-is_empty : (s : Text) (c : ℕ) → is_empty (s ++ c ∷ []) ≡ false
snoc-is_empty [] c = refl
snoc-is_empty (d ∷ s) c = refl

to_string-is_empty : (n : ℕ) → is_empty (to_string n) ≡ false
unfolding decimal
to_string-is_empty n = elim (Bool-cases (ltb n 10)) [
  | inl small ↦ rw small
  | inr large ↦ rw large (snoc-is_empty (decimal 19 (n / 10)) (48 + n % 10))
]

pub to_string-is_plain : (n : ℕ) → is_plain (to_string n) ≡ true
unfolding is_plain
to_string-is_plain n = rw (to_string-is_empty n, digits-no_dot (to_string n) (decimal-IsDigit 20 n))

-- A text that begins with a letter is no number's.
pub letter-to_string : (c n : ℕ) (s : Text) → 57 < c → text_eq (c ∷ s) (to_string n) ≡ false
letter-to_string c n s h = elim (Bool-cases (text_eq (c ∷ s) (to_string n))) [
  | inl same ↦
      absurd (outside (subst (All IsDigit) (sym (text_eq→≡ _ _ same)) (decimal-IsDigit 20 n)))
  | inr other ↦ other
]
  where
    outside : All IsDigit (c ∷ s) → ⊥
    outside d = omega (arith, d.0)

pub to_string-apart : (i j : ℕ) → i < j → j < 2 ^ 64 → text_eq (to_string i) (to_string j) ≡ false
to_string-apart i j h k = elim (Bool-cases (text_eq (to_string i) (to_string j))) [
  | inl same ↦ absurd (clash (text_eq→≡ _ _ same))
  | inr other ↦ other
]
  where
    clash : to_string i ≡ to_string j → ⊥
    clash e = omega (
      arith,
      some-injective (
          sym (digits-decimal 20 i (omega arith))
          ∙ (ap (digits 0) e ∙ digits-decimal 20 j (omega arith))),
    )
