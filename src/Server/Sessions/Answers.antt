-- ===== src/Server/Sessions/Answers.antt =====
-- src/server/async/socket_server.cc: the answers of a connection to its requests.
pub mod Received
use libvineyard.Base.{
  ℕ, ◌<◌, ◌^◌, ◌≡◌, refl, ap, Bool, true, false, List, [], ◌∷◌, map, Text, length, All,
  if◌then◌else◌,
}
use libvineyard.Base.Table.{Table}
use libvineyard.Common.Status.{Status, is_ok}
use libvineyard.Common.Ptree.{PtreeLibrary, PtreeLaws}
use libvineyard.Common.Protocols.{Read, result, refused, write_error_reply, code_of}
use libvineyard.Common.Protocols.Replies.{
  emplace_objects, write_cluster_meta_reply, write_create_buffer_reply, write_create_data_reply,
  write_create_stream_reply, write_del_data_reply, write_drop_name_reply, write_exists_reply,
  write_get_buffers_reply, write_get_data_reply, write_get_name_reply,
  write_get_next_stream_chunk_reply, write_if_persist_reply, write_instance_status_reply,
  write_persist_reply, write_pull_next_stream_chunk_reply, write_put_name_reply,
  write_register_reply, write_shallow_copy_reply, write_stop_stream_reply, read_cluster_meta_reply,
  read_create_buffer_reply, read_create_data_reply, read_create_stream_reply, read_del_data_reply,
  read_drop_name_reply, read_exists_reply, read_get_buffers_reply, read_get_data_replies,
  read_get_name_reply, read_get_next_stream_chunk_reply, read_if_persist_reply,
  read_instance_status_reply, read_persist_reply, read_pull_next_stream_chunk_reply,
  read_put_name_reply, read_register_reply, read_shallow_copy_reply, read_stop_stream_reply,
}
use libvineyard.Common.Protocols.Replies.RoundTrip.{
  PayloadFits, seen_payload, emplace_payloads, check_ipc_error-write_error_reply,
  cluster_meta_reply_roundtrip, create_buffer_reply_roundtrip, create_data_reply_roundtrip,
  create_stream_reply_roundtrip, del_data_reply_roundtrip, drop_name_reply_roundtrip,
  exists_reply_roundtrip, get_data_replies_roundtrip, get_name_reply_roundtrip,
  get_next_stream_chunk_reply_roundtrip, if_persist_reply_roundtrip,
  instance_status_reply_roundtrip, persist_reply_roundtrip, pull_next_stream_chunk_reply_roundtrip,
  put_name_reply_roundtrip, register_reply_roundtrip, shallow_copy_reply_roundtrip,
  stop_stream_reply_roundtrip,
}
use libvineyard.Common.Protocols.Replies.Buffers.{get_buffers_reply_roundtrip}
use libvineyard.Memory.BulkStore.{Payload}
use libvineyard.Server.Sessions.{
  Request, registers, gets_buffers, creates_buffer, gets_data, lists_data, creates_data, persists,
  asks_persist, asks_exists, copies, deletes, creates_stream, gets_chunk, pulls_chunk, stops_stream,
  puts_name, gets_name, drops_name, asks_cluster, asks_instance,
}

-- What the callback of a request's case is given on success.
abbrev pub Response : {P : Type 0} → Request P → Type 0
Response {P} registers = Text × Text × ℕ
Response {P} (gets_buffers _) = List Payload
Response {P} (creates_buffer _) = ℕ × Payload
Response {P} (gets_data _ _ _) = P
Response {P} (lists_data _ _ _) = P
Response {P} (creates_data _) = ℕ × ℕ
Response {P} (persists _) = Unit {0}
Response {P} (asks_persist _) = Bool
Response {P} (asks_exists _) = Bool
Response {P} (copies _) = ℕ
Response {P} (deletes _ _ _) = Unit {0}
Response {P} (creates_stream _) = Unit {0}
Response {P} (gets_chunk _ _) = Payload
Response {P} (pulls_chunk _) = Payload
Response {P} (stops_stream _ _) = Unit {0}
Response {P} (puts_name _ _) = Unit {0}
Response {P} (gets_name _ _) = ℕ
Response {P} (drops_name _) = Unit {0}
Response {P} asks_cluster = P
Response {P} asks_instance = P

-- What the callback of a request's case is given: a success, an error, or a chunk whose payload is not
-- in the blob store any more, where the callback of a request that had to wait answers nothing.
pub data Outcome (A : Type 0) : Type 0 where
  done : A → Outcome A
  failed : Status → Text → Outcome A
  lost : Bool → Status → Text → Outcome A

module _ (l : PtreeLibrary) where
  -- The reply that the callback writes on success.
  unfoldable pub write_response : (r : Request l.Ptree) → Response r → l.Ptree
  write_response registers (a, b, c) = write_register_reply l a b c
  write_response (gets_buffers _) v = write_get_buffers_reply l v
  write_response (creates_buffer _) (a, b) = write_create_buffer_reply l a b
  write_response (gets_data _ _ _) v = write_get_data_reply l v
  write_response (lists_data _ _ _) v = write_get_data_reply l v
  write_response (creates_data _) (a, b) = write_create_data_reply l a b
  write_response (persists _) _ = write_persist_reply l
  write_response (asks_persist _) v = write_if_persist_reply l v
  write_response (asks_exists _) v = write_exists_reply l v
  write_response (copies _) v = write_shallow_copy_reply l v
  write_response (deletes _ _ _) _ = write_del_data_reply l
  write_response (creates_stream _) _ = write_create_stream_reply l
  write_response (gets_chunk _ _) v = write_get_next_stream_chunk_reply l v
  write_response (pulls_chunk _) v = write_pull_next_stream_chunk_reply l v
  write_response (stops_stream _ _) _ = write_stop_stream_reply l
  write_response (puts_name _ _) _ = write_put_name_reply l
  write_response (gets_name _ _) v = write_get_name_reply l v
  write_response (drops_name _) _ = write_drop_name_reply l
  write_response asks_cluster v = write_cluster_meta_reply l v
  write_response asks_instance v = write_instance_status_reply l v

  -- The replies to a request.
  unfoldable pub respond : (r : Request l.Ptree) → Outcome (Response r) → List l.Ptree
  respond r (done v) = write_response r v ∷ []
  respond r (failed status text) = write_error_reply l status text ∷ []
  respond r (lost waited status text) = if waited then [] else write_error_reply l status text ∷ []
