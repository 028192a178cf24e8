-- ===== src/Common/Protocols/Numbered.antt =====
-- The numbered entries of the messages about buffers, and the loops that read them.
use libvineyard.Base.{
  ℕ, suc, ◌+◌, ◌<◌, ◌^◌, ◌≡◌, refl, ◌∙◌, true, Option, none, some, List, [], ◌∷◌, ◌++◌,
  if◌then◌else◌, Text, length, arith, All,
}
use libvineyard.Common.Ptree.{PtreeLibrary, PtreeLaws}
use libvineyard.Common.Ptree.Decimal.{to_string-is_plain, to_string-apart, letter-to_string}
use libvineyard.Common.Protocols.{result, Entry, field, member, message, get_word}
use libvineyard.Common.Protocols.Fields.{plain_keys, seen_text, seen_child, get_number-message}
use libvineyard.Common.Protocols.Requests.{numbered_ids, read_ids}
use libvineyard.Common.Ptree.Fields.{text_eq_refl, text_eq_sym}
use libvineyard.Meta.Paths.{text_eq, to_string}

-- What is found under the numbers from one on is the list's elements, in order.
abbrev pub Found {ℓ κ} : {A : Type ℓ} {B : Type κ} → (Text → B) → (A → B) → ℕ → List A → Type κ
Found f g j [] = Unit
Found f g j (a ∷ rest) = (f (to_string j) ≡ g a) × Found f g (suc j) rest

pub Found-mono {ℓ κ} :
    {A : Type ℓ} {B : Type κ} (f h : Text → B) (g : A → B) (j : ℕ) (xs : List A)
    → ((i : ℕ) → h (to_string i) ≡ f (to_string i))
    → Found f g j xs
    → Found h g j xs
Found-mono f h g j [] e k = tt
Found-mono f h g j (a ∷ rest) e k = (e j ∙ k.0, Found-mono f h g (suc j) rest e k.1)

pub plain_keys-append :
    {P : Type 0} (es fs : List (Entry P))
    → plain_keys es ≡ true
    → plain_keys fs ≡ true
    → plain_keys (es ++ fs) ≡ true
unfolding plain_keys
plain_keys-append [] fs h k = k
plain_keys-append (field k v ∷ es) fs h g = ground (arith, plain_keys-append es fs)
plain_keys-append (member k s ∷ es) fs h g = ground (arith, plain_keys-append es fs)

module _ (l : PtreeLibrary) where
  pub seen_text-append :
      (j : Text) (es fs : List (Entry l.Ptree)) (now : Option Text)
      → seen_text l j (es ++ fs) now ≡ seen_text l j fs (seen_text l j es now)
  unfolding seen_text
  seen_text-append j [] fs now = refl
  seen_text-append j (field k v ∷ es) fs now = seen_text-append j es fs _
  seen_text-append j (member k s ∷ es) fs now = seen_text-append j es fs _

  pub seen_child-append :
      (j : Text) (es fs : List (Entry l.Ptree)) (now : Option l.Ptree)
      → seen_child l j (es ++ fs) now ≡ seen_child l j fs (seen_child l j es now)
  unfolding seen_child
  seen_child-append j [] fs now = refl
  seen_child-append j (field k v ∷ es) fs now = seen_child-append j es fs _
  seen_child-append j (member k s ∷ es) fs now = seen_child-append j es fs _

  pub numbered_ids-plain : (j : ℕ) (ids : List ℕ) → plain_keys (numbered_ids l j ids) ≡ true
  unfolding plain_keys numbered_ids
  numbered_ids-plain j [] = refl
  numbered_ids-plain j (id ∷ ids) = rw (to_string-is_plain j) (numbered_ids-plain (suc j) ids)

  -- A key that begins with a letter is not among the numbers.
  pub seen_text-numbered_letter :
      (c : ℕ) (s : Text) (j : ℕ) (ids : List ℕ) (now : Option Text)
      → 57 < c
      → seen_text l (c ∷ s) (numbered_ids l j ids) now ≡ now
  unfolding seen_text numbered_ids
  seen_text-numbered_letter c s j [] now h = refl
  seen_text-numbered_letter c s j (id ∷ ids) now h =
      rw (text_eq_sym (to_string j) (c ∷ s), letter-to_string c j s h)
        (seen_text-numbered_letter c s (suc j) ids now h)

  seen_text-numbered_before :
      (i j : ℕ) (ids : List ℕ) (now : Option Text)
      → i < j
      → j + length ids < 2 ^ 64
      → seen_text l (to_string i) (numbered_ids l j ids) now ≡ now
  unfolding seen_text numbered_ids
  seen_text-numbered_before i j [] now h k = refl
  seen_text-numbered_before i j (id ∷ ids) now h k =
      rw (text_eq_sym (to_string j) (to_string i), to_string-apart i j h (omega arith))
        (seen_text-numbered_before i (suc j) ids now (omega arith) (omega arith))

  pub seen_text-numbered :
      (j : ℕ) (ids : List ℕ) (now : Text → Option Text)
      → j + length ids < 2 ^ 64
      → Found
          (λ t. seen_text l t (numbered_ids l j ids) (now t))
          (λ id. some (l.of_number id))
          j
          ids
  unfolding seen_text numbered_ids
  seen_text-numbered j [] now h = tt
  seen_text-numbered j (id ∷ ids) now h = (
    rw (text_eq_refl (to_string j))
        (seen_text-numbered_before j (suc j) ids _ (omega arith) (omega arith)),
    seen_text-numbered (suc j) ids
        (λ t. if text_eq (to_string j) t then some (l.of_number id) else now t) (omega arith),
  )

  -- The loop over the ids of a message gives those that are found in it.
  pub read_ids-Found :
      (root : l.Ptree) (j : ℕ) (ids : List ℕ)
      → Found (λ t. get_word l t root) result j ids
      → read_ids l (length ids) j root ≡ result ids
  unfolding read_ids
  read_ids-Found root j [] h = refl
  read_ids-Found root j (id ∷ ids) h = rw (h.0, read_ids-Found root (suc j) ids h.1)

module _ {l : PtreeLibrary} (w : PtreeLaws l) where
  pub get_word-Found :
      (es : List (Entry l.Ptree)) (j : ℕ) (ids : List ℕ)
      → plain_keys es ≡ true
      → All (λ id. id < 2 ^ 64) ids
      → Found (λ t. seen_text l t es none) (λ id. some (l.of_number id)) j ids
      → Found (λ t. get_word l t (message l es)) result j ids
  get_word-Found es j [] p h k = tt
  get_word-Found es j (id ∷ ids) p h k = (
    get_number-message w (2 ^ 64) (to_string j) es id (to_string-is_plain j) p k.0 h.0
        (omega arith),
    get_word-Found es (suc j) ids p h.1 k.1,
  )
