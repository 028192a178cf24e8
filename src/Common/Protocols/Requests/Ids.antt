-- ===== src/Common/Protocols/Requests/Ids.antt =====
-- The ids of a request come back from their text.
use libvineyard.Base.{
  ℕ, ◌<◌, ◌^◌, ◌≡◌, refl, false, List, [], ◌∷◌, ◌++◌, Text, arith, ◌∙◌, All, map,
}
use libvineyard.Common.Protocols.Requests.{join, split, join_ids, split_ids}
use libvineyard.Meta.Paths.{has_char}
use libvineyard.Common.Uuid.{object_id_to_string, object_id_from_string}
use libvineyard.Common.Uuid.Laws.{object_id_to_string-no_semicolon, object_id_from_string-to_string}

split-no_semicolon : (s : Text) → has_char b';' s ≡ false → split s ≡ (s, [])
unfolding split has_char
split-no_semicolon [] h = refl
split-no_semicolon (c ∷ s) h = ground (arith, split-no_semicolon s)

split-append :
    (s t : Text) → has_char b';' s ≡ false → split (s ++ b';' ∷ t) ≡ (s, (split t).0 ∷ (split t).1)
unfolding split has_char
split-append [] t h = refl
split-append (c ∷ s) t h = ground (arith, split-append s t)

split-join :
    (s : Text) (rest : List Text)
    → All (λ t. has_char b';' t ≡ false) (s ∷ rest)
    → split (join (s ∷ rest)) ≡ (s, rest)
unfolding join
split-join s [] h = split-no_semicolon s h.0
split-join s (t ∷ rest) h = split-append s (join (t ∷ rest)) h.0 ∙ rw (split-join t rest h.1)

-- Ids of 64 bits.
abbrev pub AllFit : List ℕ → Type 0
AllFit ids = All (λ id. id < 2 ^ 64) ids

texts-no_semicolon :
    (ids : List ℕ) → AllFit ids → All (λ t. has_char b';' t ≡ false) (map object_id_to_string ids)
texts-no_semicolon [] h = tt
texts-no_semicolon (id ∷ ids) h =
    (object_id_to_string-no_semicolon id h.0, texts-no_semicolon ids h.1)

ids_back :
    (ids : List ℕ) → AllFit ids → map object_id_from_string (map object_id_to_string ids) ≡ ids
ids_back [] h = refl
ids_back (id ∷ ids) h = rw (object_id_from_string-to_string id h.0, ids_back ids h.1)

-- One id or more come back from their text.
pub split_ids-join_ids :
    (id : ℕ) (ids : List ℕ) → AllFit (id ∷ ids) → split_ids (join_ids (id ∷ ids)) ≡ id ∷ ids
split_ids-join_ids id ids h = rw (
  split-join (object_id_to_string id) (map object_id_to_string ids)
      (texts-no_semicolon (id ∷ ids) h),
  object_id_from_string-to_string id h.0,
  ids_back ids h.1,
)
