-- ===== src/Client/Io.antt =====
-- src/client/io.cc: how a client connects, and sends and receives messages. What the kernel answers to
-- each call is an argument.
pub mod Transfer
pub mod Progress
pub mod Connecting
use libvineyard.Base.{
  ℕ, zero, suc, ◌+◌, Bool, true, false, Option, none, some, List, [], ◌∷◌, ◌++◌, if◌then◌else◌,
  Text, length, drop, is_empty, ltb, leb, chain, ◌==◌, ◌-◌, min,
}
use libvineyard.Common.Status.{Status, ok, io_error, connection_failed, is_ok}
use libvineyard.Server.Sessions.Framing.{word_bytes, bytes_word}

-- What `write` or `read` answers: a number of bytes, or an error, which is EAGAIN, EWOULDBLOCK or EINTR
-- or another one.
pub data Answer : Type 0 where
  bytes : ℕ → Answer
  interrupted : Answer
  broken : Answer

unfoldable pub take : ℕ → Text → Text
take zero s = []
take (suc n) [] = []
take (suc n) (c ∷ s) = c ∷ take n s

-- Where a transfer ends: with a status, the bytes that have gone through, what is left, and the
-- answers that are not used. None is a call that is still waiting for the kernel.
pub record Ending : Type 0 where
  pub status : Status
  pub through : Text
  pub left : Text
  pub unused : List Answer

abbrev pub ending : Status → Text → Text → List Answer → Ending
ending status through left unused = record {
  status = status;
  through = through;
  left = left;
  unused = unused;
}

-- `send_bytes`, with what has been sent.
unfoldable pub send_bytes : List Answer → Text → Text → Option Ending
send_bytes answers through [] = some (ending ok through [] answers)
send_bytes [] through (c ∷ s) = none
send_bytes (bytes zero ∷ answers) through (c ∷ s) = some (ending io_error through (c ∷ s) answers)
send_bytes (bytes (suc n) ∷ answers) through (c ∷ s) =
    send_bytes answers (through ++ take (suc n) (c ∷ s)) (drop n s)
send_bytes (interrupted ∷ answers) through (c ∷ s) = send_bytes answers through (c ∷ s)
send_bytes (broken ∷ answers) through (c ∷ s) = some (ending io_error through (c ∷ s) answers)

-- `recv_bytes` of as many bytes as are left, with what has been received. The kernel has the stream,
-- and gives no more than it is asked for; an empty stream is waited for.
unfoldable pub recv_bytes : List Answer → Text → ℕ → Text → Option Ending
recv_bytes answers stream zero through = some (ending ok through stream answers)
recv_bytes [] stream (suc k) through = none
recv_bytes (bytes zero ∷ answers) stream (suc k) through =
    some (ending io_error through stream answers)
recv_bytes (bytes (suc n) ∷ answers) [] (suc k) through = none
recv_bytes (bytes (suc n) ∷ answers) (c ∷ s) (suc k) through =
    let more = take (min n k) s in
    recv_bytes answers (drop (min n k) s) (k - length more) (through ++ c ∷ more)
recv_bytes (interrupted ∷ answers) stream (suc k) through =
    recv_bytes answers stream (suc k) through
recv_bytes (broken ∷ answers) stream (suc k) through = some (ending io_error through stream answers)

-- `send_message`
unfoldable pub send_message : List Answer → Text → Option Ending
send_message answers message = chain (send_bytes answers [] (word_bytes 8 (length message))) (λ e.
    if is_ok e.status
    then send_bytes e.unused e.through message
    else some (record e { left = e.left ++ message }))

-- `recv_message`, from a stream.
unfoldable pub recv_message : List Answer → Text → Option Ending
recv_message answers stream =
    chain (recv_bytes answers stream 8 [])
      (λ e. if is_ok e.status then recv_bytes e.unused e.left (bytes_word e.through) [] else some e)
