-- ===== src/Common/Protocols/Fields.antt =====
-- What a reader finds in a message that is written by calls of `put` and `add_child`.
use libvineyard.Base.{
  ℕ, ◌<◌, ◌≤◌, ◌^◌, ◌≡◌, refl, Bool, true, ◌&&◌, Option, none, some, List, [], ◌∷◌, if◌then◌else◌,
  is_set, Text, codes, arith, Bool-cases, inl, inr, ◌∙◌,
}
use libvineyard.Common.Ptree.{is_plain, PtreeLibrary, PtreeLaws, empty_tree, with_text}
use libvineyard.Common.Ptree.Fields.{
  get_text, text_eq_refl, text_eq→≡, get_text-put, child-put, child-add_child, child-empty,
}
use libvineyard.Common.Protocols.{
  result, Entry, field, member, add_entries, message, get_string, get_number, get_bool, get_flag,
  get_child, expect_type, check_ipc_error,
}
use libvineyard.Meta.Paths.{text_eq, has_char}

unfoldable pub plain_keys : {P : Type 0} → List (Entry P) → Bool
plain_keys [] = true
plain_keys (field k v ∷ es) = let rest = plain_keys es in is_plain k && rest
plain_keys (member k s ∷ es) = let rest = plain_keys es in is_plain k && rest

module _ (l : PtreeLibrary) where
  -- The text under a key after the calls, from the one before them.
  unfoldable pub seen_text : Text → List (Entry l.Ptree) → Option Text → Option Text
  seen_text j [] now = now
  seen_text j (field k v ∷ es) now = seen_text j es (if text_eq k j then some v else now)
  seen_text j (member k s ∷ es) now =
      seen_text j es (if is_set now then now else if text_eq k j then some (l.text s) else none)

  unfoldable pub seen_child : Text → List (Entry l.Ptree) → Option l.Ptree → Option l.Ptree
  seen_child j [] now = now
  seen_child j (field k v ∷ es) now =
      seen_child j es (if text_eq k j then some (with_text l v now) else now)
  seen_child j (member k s ∷ es) now =
      seen_child j es (if is_set now then now else if text_eq k j then some s else none)

module _ {l : PtreeLibrary} (w : PtreeLaws l) where
  pub get_text-add_child :
      (j k : Text) (s t : l.Ptree)
      → is_plain j ≡ true
      → is_plain k ≡ true
      → get_text l j (l.add_child k s t) ≡ (
          if is_set (get_text l j t)
          then get_text l j t
          else if text_eq k j
          then some (l.text s)
          else none)
  unfolding get_text
  get_text-add_child j k s t p q = rw (child-add_child w j k s t p q) (ground arith)

  pub get_text-add_entries :
      (j : Text) (es : List (Entry l.Ptree)) (t : l.Ptree)
      → is_plain j ≡ true
      → plain_keys es ≡ true
      → get_text l j (add_entries l es t) ≡ seen_text l j es (get_text l j t)
  unfolding add_entries plain_keys seen_text
  get_text-add_entries j [] t p q = refl
  get_text-add_entries j (field k v ∷ es) t p q =
      get_text-add_entries j es (l.put k v t) p (ground arith)
      ∙ rw (get_text-put w j k v t p (ground arith))
  get_text-add_entries j (member k s ∷ es) t p q =
      get_text-add_entries j es (l.add_child k s t) p (ground arith)
      ∙ rw (get_text-add_child j k s t p (ground arith))

  pub child-add_entries :
      (j : Text) (es : List (Entry l.Ptree)) (t : l.Ptree)
      → is_plain j ≡ true
      → plain_keys es ≡ true
      → l.child j (add_entries l es t) ≡ seen_child l j es (l.child j t)
  unfolding add_entries plain_keys seen_child
  child-add_entries j [] t p q = refl
  child-add_entries j (field k v ∷ es) t p q = elim (Bool-cases (text_eq k j)) [
    | inl same ↦
        child-add_entries j es (l.put k v t) p (ground arith)
        ∙ rw (child-put w j k v t p (ground arith), same, text_eq→≡ k j same)
    | inr other ↦
        child-add_entries j es (l.put k v t) p (ground arith)
        ∙ rw (child-put w j k v t p (ground arith), other)
  ]
  child-add_entries j (member k s ∷ es) t p q =
      child-add_entries j es (l.add_child k s t) p (ground arith)
      ∙ rw (child-add_child w j k s t p (ground arith))

  pub get_text-empty : (j : Text) → is_plain j ≡ true → get_text l j (empty_tree l) ≡ none
  unfolding get_text
  get_text-empty j p = rw (child-empty w j p)

  pub get_text-message :
      (j : Text) (es : List (Entry l.Ptree))
      → is_plain j ≡ true
      → plain_keys es ≡ true
      → get_text l j (message l es) ≡ seen_text l j es none
  get_text-message j es p q = get_text-add_entries j es (empty_tree l) p q ∙ rw (get_text-empty j p)

  pub get_child-message :
      (j : Text) (es : List (Entry l.Ptree)) (s : l.Ptree)
      → is_plain j ≡ true
      → plain_keys es ≡ true
      → seen_child l j es none ≡ some s
      → get_child l j (message l es) ≡ result s
  unfolding get_child
  get_child-message j es s p q e =
      rw (child-add_entries j es (empty_tree l) p q, child-empty w j p, e)

  pub get_string-message :
      (j : Text) (es : List (Entry l.Ptree)) (v : Text)
      → is_plain j ≡ true
      → plain_keys es ≡ true
      → seen_text l j es none ≡ some v
      → get_string l j (message l es) ≡ result v
  unfolding get_string
  get_string-message j es v p q e = rw (get_text-message j es p q, e)

  pub get_number-message :
      (limit : ℕ) (j : Text) (es : List (Entry l.Ptree)) (n : ℕ)
      → is_plain j ≡ true
      → plain_keys es ≡ true
      → seen_text l j es none ≡ some (l.of_number n)
      → n < limit
      → limit ≤ 2 ^ 64
      → get_number l limit j (message l es) ≡ result n
  unfolding get_number
  get_number-message limit j es n p q e h g =
      rw (get_text-message j es p q, e, w.number_roundtrip limit n h g)

  pub get_bool-message :
      (j : Text) (es : List (Entry l.Ptree)) (b : Bool)
      → is_plain j ≡ true
      → plain_keys es ≡ true
      → seen_text l j es none ≡ some (l.of_bool b)
      → get_bool l j (message l es) ≡ result b
  unfolding get_bool
  get_bool-message j es b p q e = rw (get_text-message j es p q, e, w.bool_roundtrip b)

  pub get_flag-message :
      (j : Text) (es : List (Entry l.Ptree)) (b : Bool)
      → is_plain j ≡ true
      → plain_keys es ≡ true
      → seen_text l j es none ≡ some (l.of_bool b)
      → get_flag l j (message l es) ≡ result b
  unfolding get_flag
  get_flag-message j es b p q e = rw (get_text-message j es p q, e, w.bool_roundtrip b)

  pub expect_type-message :
      (type : Text) (es : List (Entry l.Ptree))
      → plain_keys es ≡ true
      → seen_text l (codes "type") es none ≡ some type
      → expect_type l type (message l es) ≡ result tt
  unfolding expect_type is_plain has_char
  expect_type-message type es q e =
      rw (get_string-message (codes "type") es type refl q e, text_eq_refl type)

  pub check_ipc_error-message :
      (type : Text) (es : List (Entry l.Ptree))
      → plain_keys es ≡ true
      → seen_text l (codes "code") es none ≡ none
      → seen_text l (codes "type") es none ≡ some type
      → check_ipc_error l type (message l es) ≡ result tt
  unfolding check_ipc_error is_plain has_char
  check_ipc_error-message type es q c e =
      rw (get_text-message (codes "code") es refl q, c) (expect_type-message type es q e)
