-- ===== src/Client/Io/Transfer.antt =====
-- What goes through a socket is the message, however the kernel cuts it.
use libvineyard.Base.{
  ℕ, zero, suc, ◌+◌, ◌<◌, ◌≤◌, ◌^◌, ◌≡◌, refl, sym, ap, ◌∙◌, Bool, true, false, some, List, [], ◌∷◌,
  ◌++◌, Text, length, drop, is_empty, arith, min, append-nil, append_assoc, chain_result,
  length-append, inl, inr, some-injective, branch_inverse,
}
use mathlib.Core.Path.{ap₂}
use libvineyard.Common.Status.{is_ok}
use libvineyard.Client.Io.{
  Answer, bytes, interrupted, broken, Ending, take, send_bytes, recv_bytes, send_message,
  recv_message,
}
use libvineyard.Server.Sessions.Framing.{
  word_bytes, bytes_word, frame, length-word_bytes, bytes_word-word_bytes, read_message,
  read_message-frame,
}

take-drop : (n : ℕ) (s : Text) → take n s ++ drop n s ≡ s
unfolding take
take-drop zero s = refl
take-drop (suc n) [] = refl
take-drop (suc n) (c ∷ s) = ap (λ r. c ∷ r) (take-drop n s)

length-take-le : (n : ℕ) (s : Text) → length (take n s) ≤ n
unfolding take
length-take-le zero s = omega arith
length-take-le (suc n) [] = omega arith
length-take-le (suc n) (c ∷ s) = omega (arith, length-take-le n s)

clash : {b : Bool} → b ≡ true → b ≡ false → ⊥
clash h k = cc

-- What has been sent and what is left are the data.
send_bytes-whole :
    (answers : List Answer) (through s : Text) (e : Ending)
    → send_bytes answers through s ≡ some e
    → e.through ++ e.left ≡ through ++ s
unfolding send_bytes take
send_bytes-whole answers through [] e h = rw (sym (some-injective h))
send_bytes-whole [] through (c ∷ s) e h = absurd (ground arith)
send_bytes-whole (bytes zero ∷ answers) through (c ∷ s) e h = rw (sym (some-injective h))
send_bytes-whole (bytes (suc n) ∷ answers) through (c ∷ s) e h =
    send_bytes-whole answers (through ++ c ∷ take n s) (drop n s) e h
    ∙ (append_assoc through (c ∷ take n s) (drop n s) ∙ ap (λ r. through ++ c ∷ r) (take-drop n s))
send_bytes-whole (interrupted ∷ answers) through (c ∷ s) e h =
    send_bytes-whole answers through (c ∷ s) e h
send_bytes-whole (broken ∷ answers) through (c ∷ s) e h = rw (sym (some-injective h))

send_bytes-left :
    (answers : List Answer) (through s : Text) (e : Ending)
    → send_bytes answers through s ≡ some e
    → is_ok e.status ≡ is_empty e.left
unfolding send_bytes take
send_bytes-left answers through [] e h = ground arith
send_bytes-left [] through (c ∷ s) e h = absurd (ground arith)
send_bytes-left (bytes zero ∷ answers) through (c ∷ s) e h = ground arith
send_bytes-left (bytes (suc n) ∷ answers) through (c ∷ s) e h =
    send_bytes-left answers (through ++ c ∷ take n s) (drop n s) e h
send_bytes-left (interrupted ∷ answers) through (c ∷ s) e h =
    send_bytes-left answers through (c ∷ s) e h
send_bytes-left (broken ∷ answers) through (c ∷ s) e h = ground arith

-- What has been received and what is left are the stream.
recv_bytes-whole :
    (answers : List Answer) (stream : Text) (k : ℕ) (through : Text) (e : Ending)
    → recv_bytes answers stream k through ≡ some e
    → e.through ++ e.left ≡ through ++ stream
unfolding recv_bytes
recv_bytes-whole answers stream zero through e h = rw (sym (some-injective h))
recv_bytes-whole [] stream (suc k) through e h = absurd (ground arith)
recv_bytes-whole (bytes zero ∷ answers) stream (suc k) through e h = rw (sym (some-injective h))
recv_bytes-whole (bytes (suc n) ∷ answers) [] (suc k) through e h = absurd (ground arith)
recv_bytes-whole (bytes (suc n) ∷ answers) (c ∷ s) (suc k) through e h =
    recv_bytes-whole answers _ _ _ e h
    ∙ (append_assoc through (c ∷ take (min n k) s) (drop (min n k) s)
        ∙ ap (λ r. through ++ c ∷ r) (take-drop (min n k) s))
recv_bytes-whole (interrupted ∷ answers) stream (suc k) through e h =
    recv_bytes-whole answers stream (suc k) through e h
recv_bytes-whole (broken ∷ answers) stream (suc k) through e h = rw (sym (some-injective h))

-- Once it is ok, as many bytes have been received as were asked for.
recv_bytes-length :
    (answers : List Answer) (stream : Text) (k : ℕ) (through : Text) (e : Ending)
    → recv_bytes answers stream k through ≡ some e
    → is_ok e.status ≡ true
    → length e.through ≡ length through + k
unfolding recv_bytes
recv_bytes-length answers stream zero through e h o = rw (sym (some-injective h)) (omega arith)
recv_bytes-length [] stream (suc k) through e h o = absurd (ground arith)
recv_bytes-length (bytes zero ∷ answers) stream (suc k) through e h o = absurd (ground arith)
recv_bytes-length (bytes (suc n) ∷ answers) [] (suc k) through e h o = absurd (ground arith)
recv_bytes-length (bytes (suc n) ∷ answers) (c ∷ s) (suc k) through e h o =
    recv_bytes-length answers _ _ _ e h o
    ∙ omega (arith, length-append through (c ∷ take (min n k) s), length-take-le (min n k) s)
recv_bytes-length (interrupted ∷ answers) stream (suc k) through e h o =
    recv_bytes-length answers stream (suc k) through e h o
recv_bytes-length (broken ∷ answers) stream (suc k) through e h o = absurd (ground arith)

-- Two ways to cut a text after as many bytes are the same.
same_cut : (a b s t : Text) → length a ≡ length b → a ++ s ≡ b ++ t → (a ≡ b) × (s ≡ t)
same_cut [] [] s t h e = (refl, e)
same_cut [] (d ∷ b) s t h e = absurd (omega arith)
same_cut (c ∷ a) [] s t h e = absurd (omega arith)
same_cut (c ∷ a) (d ∷ b) s t h e = let (f, g) = same_cut a b s t (omega arith) cc in (cc, g)

nothing_left : (s : Text) → is_empty s ≡ true → s ≡ []
nothing_left [] h = refl
nothing_left (c ∷ s) h = absurd (ground arith)

send_bytes-ok :
    (answers : List Answer) (through s : Text) (e : Ending)
    → send_bytes answers through s ≡ some e
    → is_ok e.status ≡ true
    → e.through ≡ through ++ s
send_bytes-ok answers through s e h o =
    sym (append-nil e.through)
    ∙ (ap (λ left. e.through ++ left)
          (sym (nothing_left e.left (sym (send_bytes-left answers through s e h) ∙ o)))
        ∙ send_bytes-whole answers through s e h)

send_message-frame :
    (answers : List Answer) (message : Text) (e : Ending)
    → send_message answers message ≡ some e
    → is_ok e.status ≡ true
    → e.through ≡ frame message
unfolding send_message frame
send_message-frame answers message e h o =
    let (header, first, second) =
      chain_result (send_bytes answers [] (word_bytes 8 (length message))) _ e h in
    elim (branch_inverse (is_ok header.status) _ _ _ second) [
      | inl (good, sent) ↦
          send_bytes-ok header.unused header.through message e sent o
          ∙ ap (λ s. s ++ message) (send_bytes-ok answers [] _ header first good)
      | inr (bad, stopped) ↦
          absurd (clash (ap (λ (x : Ending). is_ok x.status) (some-injective stopped) ∙ o) bad)
    ]

-- Where `send_message` is ok the server reads the message, whatever the kernel has answered, and
-- whatever is sent next.
pub read_message-send_message :
    (answers : List Answer) (message rest : Text) (e : Ending)
    → send_message answers message ≡ some e
    → is_ok e.status ≡ true
    → length message < 2 ^ 64
    → read_message (e.through ++ rest) ≡ some (message, rest)
read_message-send_message answers message rest e h o fits =
    rw (send_message-frame answers message e h o) (read_message-frame message rest fits)

recv_bytes-prefix :
    (answers : List Answer) (s t : Text) (e : Ending)
    → recv_bytes answers (s ++ t) (length s) [] ≡ some e
    → is_ok e.status ≡ true
    → (e.through ≡ s) × (e.left ≡ t)
recv_bytes-prefix answers s t e h o =
    same_cut e.through s e.left t
      (recv_bytes-length answers (s ++ t) (length s) [] e h o ∙ omega arith)
      (recv_bytes-whole answers (s ++ t) (length s) [] e h)

recv_header :
    (answers : List Answer) (n : ℕ) (t : Text) (e : Ending)
    → recv_bytes answers (word_bytes 8 n ++ t) 8 [] ≡ some e
    → is_ok e.status ≡ true
    → (e.through ≡ word_bytes 8 n) × (e.left ≡ t)
recv_header answers n t e h o =
    recv_bytes-prefix answers (word_bytes 8 n) t e
      (ap (λ k. recv_bytes answers (word_bytes 8 n ++ t) k []) (length-word_bytes 8 n) ∙ h) o

-- Where `recv_message` is ok on what `doWrite` frames, it has the message and leaves the rest.
pub recv_message-frame :
    (answers : List Answer) (message rest : Text) (e : Ending)
    → recv_message answers (frame message ++ rest) ≡ some e
    → is_ok e.status ≡ true
    → length message < 2 ^ 64
    → (e.through ≡ message) × (e.left ≡ rest)
unfolding recv_message frame
recv_message-frame answers message rest e h o fits =
    let (header, first, second) =
      chain_result (recv_bytes answers (frame message ++ rest) 8 []) _ e h in
    elim (branch_inverse (is_ok header.status) _ _ _ second) [
      | inl (good, received) ↦
          let (size, left) =
            recv_header answers (length message) (message ++ rest) header
              (ap (λ s. recv_bytes answers s 8 [])
                  (sym (append_assoc (word_bytes 8 (length message)) message rest))
                ∙ first)
              good in
          recv_bytes-prefix header.unused message rest e
            (ap₂ (λ s n. recv_bytes header.unused s n []) (sym left)
                (sym (ap bytes_word size ∙ bytes_word-word_bytes 8 (length message) (omega arith)))
              ∙ received)
            o
      | inr (bad, stopped) ↦
          absurd (clash (ap (λ (x : Ending). is_ok x.status) (some-injective stopped) ∙ o) bad)
    ]
