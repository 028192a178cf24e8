-- ===== src/Client/Tests.antt =====
-- A message that the kernel takes in pieces.
use libvineyard.Base.{◌≡◌, refl, true, some, List, [], ◌∷◌, ◌++◌, codes, arith}
use libvineyard.Client.Io.{
  Answer, bytes, interrupted, Ending, ending, take, send_bytes, send_message,
}
use libvineyard.Client.Io.Transfer.{read_message-send_message}
use libvineyard.Client.Io.Progress.{send_message-total}
use libvineyard.Common.Status.{ok, is_ok}
use libvineyard.Server.Sessions.Framing.{word_bytes, read_message}

abbrev pieces : List Answer
pieces = bytes 3 ∷ interrupted ∷ bytes 5 ∷ bytes 2 ∷ []

abbrev sent : Ending
sent = ending ok (2 ∷ 0 ∷ 0 ∷ 0 ∷ 0 ∷ 0 ∷ 0 ∷ 0 ∷ codes "hi") [] []

sent_whole : send_message pieces (codes "hi") ≡ some sent
unfolding send_message send_bytes take word_bytes
sent_whole = refl

read_message-send_message_example :
    read_message (sent.through ++ codes "rest") ≡ some (codes "hi", codes "rest")
read_message-send_message_example =
    read_message-send_message pieces (codes "hi") (codes "rest") sent sent_whole refl (omega arith)

abbrev ones : List Answer
ones =
    bytes 1
    ∷ bytes 1
    ∷ bytes 1
    ∷ bytes 1
    ∷ bytes 1
    ∷ bytes 1
    ∷ bytes 1
    ∷ bytes 1
    ∷ interrupted
    ∷ bytes 1
    ∷ []

send_message-total_example :
    (e : Ending) × (send_message ones (codes "!") ≡ some e) × (is_ok e.status ≡ true)
send_message-total_example = send_message-total ones (codes "!") refl (omega arith)
