-- ===== src/Common/Protocols/Requests/Buffers.antt =====
-- The server reads the ids of several buffers.
use libvineyard.Base.{
  ℕ, ◌<◌, ◌^◌, ◌≡◌, refl, true, Option, none, some, List, [], ◌∷◌, ◌++◌, Text, codes, arith, ◌∙◌,
  length, if◌then◌else◌,
}
use libvineyard.Common.Ptree.{is_plain, PtreeLibrary, PtreeLaws}
use libvineyard.Common.Protocols.{result, get_string, Entry, message}
use libvineyard.Common.Protocols.Fields.{
  plain_keys, seen_text, get_string-message, get_number-message, expect_type-message,
}
use libvineyard.Common.Protocols.Numbered.{
  Found, Found-mono, plain_keys-append, seen_text-append, numbered_ids-plain,
  seen_text-numbered_letter, seen_text-numbered, read_ids-Found, get_word-Found,
}
use libvineyard.Common.Ptree.Decimal.{letter-to_string}
use libvineyard.Common.Protocols.Requests.{
  write_get_buffers_request, read_get_buffers_request, numbered_ids, type_field, number_field,
}
use libvineyard.Meta.Paths.{text_eq, has_char, to_string}
use libvineyard.Common.Protocols.Requests.Ids.{AllFit}

module _ {l : PtreeLibrary} (w : PtreeLaws l) where
  abbrev buffer_entries : List ℕ → List (Entry l.Ptree)
  buffer_entries ids =
      type_field l (codes "get_buffers_request")
      ∷ (numbered_ids l 0 ids ++ number_field l (codes "num") (length ids) ∷ [])

  buffer_entries-plain : (ids : List ℕ) → plain_keys (buffer_entries ids) ≡ true
  unfolding plain_keys is_plain has_char
  buffer_entries-plain ids =
      plain_keys-append (numbered_ids l 0 ids) _ (numbered_ids-plain l 0 ids) refl

  -- Under a letter the entries have what the first and the last of them say.
  buffer_entries-letter :
      (c : ℕ) (s : Text) (ids : List ℕ)
      → 57 < c
      → seen_text l (c ∷ s) (buffer_entries ids) none ≡ (
          if text_eq (codes "num") (c ∷ s)
          then some (l.of_number (length ids))
          else if text_eq (codes "type") (c ∷ s)
          then some (codes "get_buffers_request")
          else none)
  unfolding seen_text
  buffer_entries-letter c s ids h = rw (
    seen_text-append l (c ∷ s) (numbered_ids l 0 ids) _ _,
    seen_text-numbered_letter l c s 0 ids _ h,
  )

  buffer_entries-Found :
      (ids : List ℕ)
      → length ids < 2 ^ 64
      → Found (λ t. seen_text l t (buffer_entries ids) none) (λ id. some (l.of_number id)) 0 ids
  unfolding seen_text
  buffer_entries-Found ids h =
      Found-mono (λ t. seen_text l t (numbered_ids l 0 ids) (first t))
        (λ t. seen_text l t (buffer_entries ids) none) (λ id. some (l.of_number id)) 0 ids
        (λ i.
          seen_text-append l (to_string i) (numbered_ids l 0 ids) _ _
          ∙ rw (letter-to_string b'n' i (codes "um") (omega arith)))
        (seen_text-numbered l 0 ids first (omega arith))
    where
      first : Text → Option Text
      first t = if text_eq (codes "type") t then some (codes "get_buffers_request") else none

  pub get_buffers_request_type :
      (ids : List ℕ)
      → get_string l (codes "type") (write_get_buffers_request l ids)
        ≡ result (codes "get_buffers_request")
  unfolding write_get_buffers_request is_plain has_char text_eq
  get_buffers_request_type ids =
      get_string-message w (codes "type") (buffer_entries ids) _ refl (buffer_entries-plain ids)
        (buffer_entries-letter b't' (codes "ype") ids (omega arith))

  pub get_buffers_request_roundtrip :
      (ids : List ℕ)
      → length ids < 2 ^ 64
      → AllFit ids
      → read_get_buffers_request l (write_get_buffers_request l ids) ≡ result ids
  unfolding read_get_buffers_request write_get_buffers_request is_plain has_char text_eq
  get_buffers_request_roundtrip ids h fit = rw (
    expect_type-message w (codes "get_buffers_request") (buffer_entries ids)
        (buffer_entries-plain ids) (buffer_entries-letter b't' (codes "ype") ids (omega arith)),
    get_number-message w (2 ^ 64) (codes "num") (buffer_entries ids) (length ids) refl
        (buffer_entries-plain ids) (buffer_entries-letter b'n' (codes "um") ids (omega arith)) h
        (omega arith),
    read_ids-Found l (message l (buffer_entries ids)) 0 ids (
        get_word-Found w (buffer_entries ids) 0 ids (buffer_entries-plain ids) fit
          (buffer_entries-Found ids h)),
  )
