-- ===== src/Common/Protocols/Replies/Buffers.antt =====
-- A client reads the payloads of several buffers.
use libvineyard.Base.{
  ℕ, suc, ◌+◌, ◌<◌, ◌≤◌, ◌^◌, ◌≡◌, refl, ap, Bool, true, false, Option, none, some, List, [], ◌∷◌,
  ◌++◌, Text, codes, arith, ◌∙◌, All, length, if◌then◌else◌, is_set,
}
use libvineyard.Base.Table.{Table}
use libvineyard.Common.Ptree.{is_plain, PtreeLibrary, PtreeLaws}
use libvineyard.Common.Ptree.Fields.{text_eq_sym, text_eq_refl}
use libvineyard.Common.Ptree.Decimal.{to_string-is_plain, to_string-apart, letter-to_string}
use libvineyard.Common.Protocols.{result, Entry, message}
use libvineyard.Common.Protocols.Fields.{
  plain_keys, seen_text, seen_child, get_child-message, get_number-message, check_ipc_error-message,
}
use libvineyard.Common.Protocols.Numbered.{
  Found, Found-mono, plain_keys-append, seen_text-append, seen_child-append,
}
use libvineyard.Common.Protocols.Requests.{type_field, number_field}
use libvineyard.Common.Protocols.Replies.{
  payload_to_json, numbered_payloads, read_payloads, write_get_buffers_reply,
  read_get_buffers_reply,
}
use libvineyard.Memory.BulkStore.{Payload}
use libvineyard.Meta.Paths.{text_eq, has_char, to_string}
use libvineyard.Common.Protocols.Replies.RoundTrip.{
  PayloadFits, emplace_payloads, payload_from_json-payload_to_json,
}

choose_no {ℓ} :
    {A : Type ℓ} {b : Bool} {n : Option A} (o : Option A) → b ≡ false → (if b then o else n) ≡ n
choose_no o h = rw h

fill {ℓ} :
    {A : Type ℓ} {b : Bool} {now : Option A} {a : A}
    → now ≡ none
    → b ≡ true
    → (if is_set now then now else if b then some a else none) ≡ some a
fill h k = rw (h, k)

module _ {l : PtreeLibrary} (w : PtreeLaws l) where
  numbered_payloads-plain :
      (j : ℕ) (ps : List Payload) → plain_keys (numbered_payloads l j ps) ≡ true
  unfolding plain_keys numbered_payloads
  numbered_payloads-plain j [] = refl
  numbered_payloads-plain j (p ∷ ps) =
      rw (to_string-is_plain j) (numbered_payloads-plain (suc j) ps)

  -- What is there stays.
  seen_text-numbered_some :
      (k v : Text) (j : ℕ) (ps : List Payload)
      → seen_text l k (numbered_payloads l j ps) (some v) ≡ some v
  unfolding seen_text numbered_payloads
  seen_text-numbered_some k v j [] = refl
  seen_text-numbered_some k v j (p ∷ ps) = seen_text-numbered_some k v (suc j) ps

  seen_child-numbered_some :
      (k : Text) (t : l.Ptree) (j : ℕ) (ps : List Payload)
      → seen_child l k (numbered_payloads l j ps) (some t) ≡ some t
  unfolding seen_child numbered_payloads
  seen_child-numbered_some k t j [] = refl
  seen_child-numbered_some k t j (p ∷ ps) = seen_child-numbered_some k t (suc j) ps

  seen_text-numbered_letter :
      (c : ℕ) (s : Text) (j : ℕ) (ps : List Payload)
      → 57 < c
      → seen_text l (c ∷ s) (numbered_payloads l j ps) none ≡ none
  unfolding seen_text numbered_payloads
  seen_text-numbered_letter c s j [] h = refl
  seen_text-numbered_letter c s j (p ∷ ps) h =
      ap (seen_text l (c ∷ s) (numbered_payloads l (suc j) ps))
        (choose_no _ (text_eq_sym (to_string j) (c ∷ s) ∙ letter-to_string c j s h))
      ∙ seen_text-numbered_letter c s (suc j) ps h

  seen_child-numbered :
      (j : ℕ) (ps : List Payload) (now : Text → Option l.Ptree)
      → j + length ps < 2 ^ 64
      → ((i : ℕ) → j ≤ i → i < 2 ^ 64 → now (to_string i) ≡ none)
      → Found
          (λ t. seen_child l t (numbered_payloads l j ps) (now t))
          (λ p. some (payload_to_json l p))
          j
          ps
  unfolding seen_child numbered_payloads
  seen_child-numbered j [] now h k = tt
  seen_child-numbered j (p ∷ ps) now h k = (
    ap (seen_child l (to_string j) (numbered_payloads l (suc j) ps))
          (fill (k j (omega arith) (omega arith)) (text_eq_refl (to_string j)))
        ∙ seen_child-numbered_some (to_string j) (payload_to_json l p) (suc j) ps,
    seen_child-numbered (suc j) ps
        (λ t.
          if is_set (now t)
          then now t
          else if text_eq (to_string j) t
          then some (payload_to_json l p)
          else none)
        (omega arith)
        (λ i below fits. rw (k i (omega arith) fits, to_string-apart j i (omega arith) fits)),
  )

  abbrev buffer_entries : List Payload → List (Entry l.Ptree)
  buffer_entries ps =
      type_field l (codes "get_buffers_reply")
      ∷ (numbered_payloads l 0 ps ++ number_field l (codes "num") (length ps) ∷ [])

  buffer_entries-plain : (ps : List Payload) → plain_keys (buffer_entries ps) ≡ true
  unfolding plain_keys is_plain has_char
  buffer_entries-plain ps =
      plain_keys-append (numbered_payloads l 0 ps) _ (numbered_payloads-plain 0 ps) refl

  buffer_entries-Found :
      (ps : List Payload)
      → length ps < 2 ^ 64
      → Found (λ t. seen_child l t (buffer_entries ps) none) (λ p. some (payload_to_json l p)) 0 ps
  unfolding seen_child
  buffer_entries-Found ps h =
      Found-mono (λ t. seen_child l t (numbered_payloads l 0 ps) (first t))
        (λ t. seen_child l t (buffer_entries ps) none) (λ p. some (payload_to_json l p)) 0 ps
        (λ i.
          seen_child-append l (to_string i) (numbered_payloads l 0 ps) _ _
          ∙ rw (letter-to_string b'n' i (codes "um") (omega arith)))
        (seen_child-numbered 0 ps first (omega arith)
          (λ i below fits. rw (letter-to_string b't' i (codes "ype") (omega arith))))
    where
      first : Text → Option l.Ptree
      first t =
          if text_eq (codes "type") t then some (l.node (codes "get_buffers_reply") []) else none

  read_payloads-Found :
      (es : List (Entry l.Ptree)) (j : ℕ) (ps : List Payload) (objects : Table Payload)
      → plain_keys es ≡ true
      → All PayloadFits ps
      → Found (λ t. seen_child l t es none) (λ p. some (payload_to_json l p)) j ps
      → read_payloads l (length ps) j objects (message l es) ≡ result (emplace_payloads ps objects)
  unfolding read_payloads
  read_payloads-Found es j [] objects p h k = refl
  read_payloads-Found es j (q ∷ ps) objects p h k =
      rw
        (
          get_child-message w (to_string j) es (payload_to_json l q) (to_string-is_plain j) p k.0,
          payload_from_json-payload_to_json w q h.0,
        )
        (read_payloads-Found es (suc j) ps _ p h.1 k.1)

  pub get_buffers_reply_roundtrip :
      (ps : List Payload)
      → length ps < 2 ^ 64
      → All PayloadFits ps
      → read_get_buffers_reply l (write_get_buffers_reply l ps) ≡ result (emplace_payloads ps [])
  unfolding read_get_buffers_reply write_get_buffers_reply is_plain has_char text_eq seen_text
  get_buffers_reply_roundtrip ps h fit = rw (
    check_ipc_error-message w (codes "get_buffers_reply") (buffer_entries ps)
        (buffer_entries-plain ps)
        (seen_text-append l (codes "code") (numbered_payloads l 0 ps) _ _
          ∙ rw (seen_text-numbered_letter b'c' (codes "ode") 0 ps (omega arith)))
        (seen_text-append l (codes "type") (numbered_payloads l 0 ps) _ _
          ∙ rw (seen_text-numbered_some (codes "type") (codes "get_buffers_reply") 0 ps)),
    get_number-message w (2 ^ 64) (codes "num") (buffer_entries ps) (length ps) refl
        (buffer_entries-plain ps) (seen_text-append l (codes "num") (numbered_payloads l 0 ps) _ _)
        h (omega arith),
    read_payloads-Found (buffer_entries ps) 0 ps [] (buffer_entries-plain ps) fit
        (buffer_entries-Found ps h),
  )
