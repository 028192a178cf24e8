-- ===== src/Client/Io/Progress.antt =====
-- A message is sent as soon as the kernel has taken enough.
use libvineyard.Base.{
  ℕ, zero, suc, ◌+◌, ◌≤◌, ◌≡◌, refl, Bool, true, false, Option, some, List, [], ◌∷◌, Text, length,
  drop, arith,
}
use libvineyard.Common.Status.{is_ok}
use libvineyard.Client.Io.{Answer, bytes, interrupted, broken, Ending, send_bytes, send_message}
use libvineyard.Server.Sessions.Framing.{word_bytes, length-word_bytes}

-- No error, and no call that takes nothing.
abbrev pub helps : List Answer → Bool
helps [] = true
helps (bytes zero ∷ answers) = false
helps (bytes (suc n) ∷ answers) = helps answers
helps (interrupted ∷ answers) = helps answers
helps (broken ∷ answers) = false

-- The calls that take something.
abbrev pub takes : List Answer → ℕ
takes [] = 0
takes (bytes n ∷ answers) = suc (takes answers)
takes (interrupted ∷ answers) = takes answers
takes (broken ∷ answers) = takes answers

length-drop-le : (n : ℕ) (s : Text) → length (drop n s) ≤ length s
length-drop-le zero s = omega arith
length-drop-le (suc n) [] = omega arith
length-drop-le (suc n) (c ∷ s) = omega (arith, length-drop-le n s)

abbrev Sends : Option Ending → ℕ → Type 0
Sends o k =
    (e : Ending) × (o ≡ some e)
    × (is_ok e.status ≡ true)
    × (helps e.unused ≡ true)
    × (k ≤ takes e.unused)

send_bytes-total :
    (answers : List Answer) (through s : Text) (k : ℕ)
    → helps answers ≡ true
    → length s + k ≤ takes answers
    → Sends (send_bytes answers through s) k
unfolding send_bytes
send_bytes-total answers through [] k h m = (_, refl, refl, h, omega arith)
send_bytes-total [] through (c ∷ s) k h m = absurd (omega arith)
send_bytes-total (bytes zero ∷ answers) through (c ∷ s) k h m = absurd (ground arith)
send_bytes-total (bytes (suc n) ∷ answers) through (c ∷ s) k h m =
    send_bytes-total answers _ (drop n s) k h (omega (arith, length-drop-le n s))
send_bytes-total (interrupted ∷ answers) through (c ∷ s) k h m =
    send_bytes-total answers through (c ∷ s) k h m
send_bytes-total (broken ∷ answers) through (c ∷ s) k h m = absurd (ground arith)

-- Where no call of `write` fails and as many of them take something as the framed message has bytes,
-- `send_message` returns ok.
pub send_message-total :
    (answers : List Answer) (message : Text)
    → helps answers ≡ true
    → 8 + length message ≤ takes answers
    → (e : Ending) × (send_message answers message ≡ some e) × (is_ok e.status ≡ true)
unfolding send_message
send_message-total answers message h m =
    let (header, sent, good, h', m') =
      send_bytes-total answers [] (word_bytes 8 (length message)) (length message) h
        (omega (arith, length-word_bytes 8 (length message))) in
    let (e, over, fine, h2, m2) =
      send_bytes-total header.unused header.through message 0 h' (omega arith) in
    (e, rw (sent, good) over, fine)
