-- ===== src/Server/Sessions/Framing.antt =====
-- How messages travel: `doWrite` of src/server/async/socket_server.cc puts the length of a message
-- before it, as a `size_t` of eight bytes, the low one first, and `doReadHeader` with `doReadBody`
-- takes it off.
use native.Mathlib.Nat.{pow-suc}
use libvineyard.Base.{
  ℕ, zero, suc, ◌+◌, ◌*◌, ◌/◌, ◌%◌, ◌<◌, ◌^◌, ◌≡◌, refl, ap, sym, ◌∙◌, Option, none, some, List, [],
  ◌∷◌, ◌++◌, Text, length, arith, chain, append_assoc, All,
}

-- The bytes of a word, of which memcpy copies as many as it has.
unfoldable pub word_bytes : ℕ → ℕ → Text
word_bytes zero n = []
word_bytes (suc left) n = n % 256 ∷ word_bytes left (n / 256)

unfoldable pub bytes_word : Text → ℕ
bytes_word [] = 0
bytes_word (c ∷ s) = c + 256 * bytes_word s

-- `to_send` in `doWrite`
unfoldable pub frame : Text → Text
frame message = word_bytes 8 (length message) ++ message

-- `async_read` of as many bytes, where there are as many, with those that are left.
unfoldable pub read_bytes : ℕ → Text → Option (Text × Text)
read_bytes zero s = some ([], s)
read_bytes (suc n) [] = none
read_bytes (suc n) (c ∷ s) = chain (read_bytes n s) (λ r. some (c ∷ r.0, r.1))

-- A header and the body that it announces.
unfoldable pub read_message : Text → Option (Text × Text)
read_message s = chain (read_bytes 8 s) (λ header. read_bytes (bytes_word header.0) header.1)

-- The messages that a connection reads in turn, at most as many as the fuel.
unfoldable pub read_messages : ℕ → Text → List Text
read_messages zero s = []
read_messages (suc fuel) s = elim (read_message s) [
  | none ↦ []
  | some (message, rest) ↦ message ∷ read_messages fuel rest
]

unfoldable pub frames : List Text → Text
frames [] = []
frames (message ∷ messages) = frame message ++ frames messages

read_bytes-append : (s t : Text) → read_bytes (length s) (s ++ t) ≡ some (s, t)
unfolding read_bytes
read_bytes-append [] t = refl
read_bytes-append (c ∷ s) t = rw (read_bytes-append s t)

pub length-word_bytes : (left n : ℕ) → length (word_bytes left n) ≡ left
unfolding word_bytes
length-word_bytes zero n = refl
length-word_bytes (suc left) n = ap suc (length-word_bytes left (n / 256))

pub bytes_word-word_bytes : (left n : ℕ) → n < 256 ^ left → bytes_word (word_bytes left n) ≡ n
unfolding word_bytes bytes_word
bytes_word-word_bytes zero n h = omega arith
bytes_word-word_bytes (suc left) n h =
    rw (bytes_word-word_bytes left (n / 256) (below n left h)) (omega arith)
  where
    below : (n left : ℕ) → n < 256 ^ suc left → n / 256 < 256 ^ left
    below n left h = grind (arith, pow-suc 256 left)

read_header : (n : ℕ) (s : Text) → read_bytes 8 (word_bytes 8 n ++ s) ≡ some (word_bytes 8 n, s)
read_header n s =
    ap (λ k. read_bytes k (word_bytes 8 n ++ s)) (sym (length-word_bytes 8 n))
    ∙ read_bytes-append (word_bytes 8 n) s

pub read_message-frame :
    (message rest : Text)
    → length message < 2 ^ 64
    → read_message (frame message ++ rest) ≡ some (message, rest)
unfolding read_message frame
read_message-frame message rest h = rw (
  append_assoc (word_bytes 8 (length message)) message rest,
  read_header (length message) (message ++ rest),
  bytes_word-word_bytes 8 (length message) (omega arith),
  read_bytes-append message rest,
)

zero-add : (n : ℕ) → 0 + n ≡ n
zero-add n = omega arith

suc-add : (m n : ℕ) → suc m + n ≡ suc (m + n)
suc-add m n = omega arith

-- Messages of less than 2 ^ 64 bytes that are framed one after another are read back, in order and
-- whole, and then what follows them is read.
pub read_messages-frames :
    (messages : List Text) (fuel : ℕ) (rest : Text)
    → All (λ message. length message < 2 ^ 64) messages
    → read_messages (length messages + fuel) (frames messages ++ rest)
      ≡ messages ++ read_messages fuel rest
unfolding read_messages frames
read_messages-frames [] fuel rest h = ap (λ n. read_messages n rest) (zero-add fuel)
read_messages-frames (message ∷ messages) fuel rest h =
    ap (λ n. read_messages n ((frame message ++ frames messages) ++ rest))
      (suc-add (length messages) fuel)
    ∙ (rw
        (
          append_assoc (frame message) (frames messages) rest,
          read_message-frame message (frames messages ++ rest) h.0,
          read_messages,
        )
        (ap (λ ms. message ∷ ms) (read_messages-frames messages fuel rest h.1)))
