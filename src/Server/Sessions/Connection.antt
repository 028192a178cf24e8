-- ===== src/Server/Sessions/Connection.antt =====
-- src/server/async/socket_server.cc: the queue of a connection's messages, and its end. A message that
-- is written and a descriptor that is sent stay on record.
pub mod Order
pub mod Descriptors
pub mod Pool
use libvineyard.Base.{
  ℕ, Bool, true, false, ◌&&◌, ◌||◌, not, Option, none, some, List, [], ◌∷◌, ◌++◌, if◌then◌else◌,
  is_empty, map, ◌==◌,
}
use libvineyard.Base.Multimap.{member, insert}

-- What `doAsyncWrite` has been given to call at its end: nothing, or to send descriptors. A callback of
-- `processMessage` answers ok.
abbrev pub Callback : Type 0
Callback = Option (List ℕ)

-- `SocketConnection`. The write in progress is that of the front of the queue, with its callback.
pub record Connection (M : Type 0) : Type 0 where
  pub running : Bool
  pub is_open : Bool
  pub write_msgs : List M
  pub callback : Callback
  pub used_fds : List ℕ
  pub associated_streams : List ℕ
  pub written : List M
  pub sent_fds : List ℕ

abbrev pub new_connection : {M : Type 0} → Connection M
new_connection = record {
  running = false;
  is_open = true;
  write_msgs = [];
  callback = none;
  used_fds = [];
  associated_streams = [];
  written = [];
  sent_fds = [];
}

module _ {M : Type 0} where
  -- `doWrite` without and with a callback: the framed message goes to the end of the queue, and where
  -- no write is in progress one begins.
  unfoldable pub enqueue : Callback → M → Connection M → Connection M
  enqueue callback message c =
      let queued = record c { write_msgs = c.write_msgs ++ message ∷ [] } in
      if is_empty c.write_msgs then record queued { callback = callback } else queued

  abbrev pub do_write : M → Connection M → Connection M
  do_write message c = enqueue none message c

  abbrev pub do_write_then : M → List ℕ → Connection M → Connection M
  do_write_then message fds c = enqueue (some fds) message c

  -- The callback that sends descriptors: each once over a connection.
  unfoldable pub send_fds : List ℕ → Connection M → Connection M
  send_fds [] c = c
  send_fds (fd ∷ fds) c = send_fds fds (
      if member fd c.used_fds
      then c
      else record c { used_fds = insert fd c.used_fds; sent_fds = c.sent_fds ++ fd ∷ [] })

  unfoldable pub call_back : Callback → Connection M → Connection M
  call_back none c = c
  call_back (some fds) c = send_fds fds c

  -- A write has ended without an error: the next one begins, with the same callback, or it is called.
  abbrev pub after_write : List M → Connection M → Connection M
  after_write [] c = c
  after_write (message ∷ rest) c =
      let d = record c { write_msgs = rest; written = c.written ++ message ∷ [] } in
      if is_empty rest then call_back c.callback (record d { callback = none }) else d

  unfoldable pub wrote : Connection M → Connection M
  wrote c = after_write c.write_msgs c

  -- `doStop`: the socket is closed, and the streams that the client reads are dropped.
  unfoldable pub do_stop : Connection M → Connection M × List ℕ
  do_stop c = (record c { is_open = false }, c.associated_streams)

  -- `Start`, `Stop`
  unfoldable pub start : Connection M → Connection M
  start c = record c { running = true }

  unfoldable pub stop : Connection M → Connection M × List ℕ
  stop c = let (d, dropped) = do_stop c in (record d { running = false }, dropped)

  -- The case of `PullNextStreamChunkRequest` remembers the stream.
  unfoldable pub associate : ℕ → Connection M → Connection M
  associate stream_id c = record c { associated_streams = insert stream_id c.associated_streams }

-- How a read ends: without an error, at the end of the stream, or with another error.
pub data Ended : Type 0 where
  complete at_eof broken : Ended

-- What the connection does next: it reads a body or a header, or it stops and leaves the pool.
pub data Next : Type 0 where
  reads_header reads_body removed : Next

abbrev is_complete : Ended → Bool
is_complete complete = true
is_complete _ = false

abbrev is_broken : Ended → Bool
is_broken broken = true
is_broken _ = false

abbrev is_eof : Ended → Bool
is_eof at_eof = true
is_eof _ = false

-- `doReadHeader`
unfoldable pub header_read : Ended → Bool → Next
header_read ended running = if is_complete ended && running then reads_body else removed

-- `doReadBody`, with whether it handles the message; `exits` is what `processMessage` answers.
unfoldable pub body_read : Ended → Bool → Bool → Bool × Next
body_read ended running exits =
    if not (is_broken ended) && running
    then (true, (if exits || is_eof ended then removed else reads_header))
    else (false, removed)
