-- ===== src/Server/Sessions.antt =====
-- src/server/async/socket_server.cc: how a connection takes a message apart, and what it answers.
pub mod Answers
pub mod Dispatch
pub mod Connection
pub mod Framing
pub mod Tests
use libvineyard.Base.{
  ℕ, ◌<◌, ◌^◌, ◌≡◌, Bool, true, false, Option, none, some, List, [], ◌∷◌, Text, codes, is_empty,
  length, All,
}
use libvineyard.Common.Status.{Status, ok, invalid, is_ok}
use libvineyard.Common.Ptree.{PtreeLibrary}
use libvineyard.Common.Protocols.{
  CommandType, null_command, exit_request, exit_reply, register_request, register_reply,
  get_data_request, get_data_reply, create_data_request, persist_request, exists_request,
  del_data_request, cluster_meta_request, list_data_request, create_buffer_request,
  get_buffers_request, create_stream_request, get_next_stream_chunk_request,
  pull_next_stream_chunk_request, stop_stream_request, put_name_request, get_name_request,
  drop_name_request, if_persist_request, instance_status_request, shallow_copy_request,
  parse_command_type, Read, result, refused, thrown, ◌>>=◌, get_string, write_error_reply, message,
  field,
}
use libvineyard.Common.Protocols.Requests.{
  read_register_request, read_get_buffers_request, read_create_buffer_request,
  read_get_data_request, read_list_data_request, read_create_data_request, read_persist_request,
  read_if_persist_request, read_exists_request, read_shallow_copy_request, read_del_data_request,
  read_create_stream_request, read_get_next_stream_chunk_request,
  read_pull_next_stream_chunk_request, read_stop_stream_request, read_put_name_request,
  read_get_name_request, read_drop_name_request, read_cluster_meta_request,
  read_instance_status_request,
}

-- A request with its arguments, as a case of `processMessage` has read them.
pub data Request (P : Type 0) : Type 0 where
  registers : Request P
  gets_buffers : List ℕ → Request P
  creates_buffer : ℕ → Request P
  gets_data : List ℕ → Bool → Bool → Request P
  lists_data : Text → Bool → ℕ → Request P
  creates_data : P → Request P
  persists : ℕ → Request P
  asks_persist : ℕ → Request P
  asks_exists : ℕ → Request P
  copies : ℕ → Request P
  deletes : List ℕ → Bool → Bool → Request P
  creates_stream : ℕ → Request P
  gets_chunk : ℕ → ℕ → Request P
  pulls_chunk : ℕ → Request P
  stops_stream : ℕ → Bool → Request P
  puts_name : ℕ → Text → Request P
  gets_name : Text → Bool → Request P
  drops_name : Text → Request P
  asks_cluster : Request P
  asks_instance : Request P

-- What a message asks for.
pub data Command (P : Type 0) : Type 0 where
  request : Request P → Command P
  exit : Command P
  unexpected : Command P

module _ (l : PtreeLibrary) where
  -- The cases of `processMessage` up to the server's operation.
  unfoldable pub read_case : CommandType → l.Ptree → Read (Command l.Ptree)
  read_case register_request root = read_register_request l root >>= λ _. result (request registers)
  read_case get_buffers_request root =
      read_get_buffers_request l root >>= λ ids. result (request (gets_buffers ids))
  read_case create_buffer_request root =
      read_create_buffer_request l root >>= λ size. result (request (creates_buffer size))
  read_case get_data_request root = do
    (ids, sync_remote, wait) ← read_get_data_request l root
    result (request (gets_data ids sync_remote wait))
  read_case list_data_request root = do
    (pattern, regex, limit) ← read_list_data_request l root
    result (request (lists_data pattern regex limit))
  read_case create_data_request root =
      read_create_data_request l root >>= λ tree. result (request (creates_data tree))
  read_case persist_request root =
      read_persist_request l root >>= λ id. result (request (persists id))
  read_case if_persist_request root =
      read_if_persist_request l root >>= λ id. result (request (asks_persist id))
  read_case exists_request root =
      read_exists_request l root >>= λ id. result (request (asks_exists id))
  read_case shallow_copy_request root =
      read_shallow_copy_request l root >>= λ id. result (request (copies id))
  read_case del_data_request root = do
    (ids, force, deep) ← read_del_data_request l root
    result (request (deletes ids force deep))
  read_case create_stream_request root =
      read_create_stream_request l root >>= λ stream_id. result (request (creates_stream stream_id))
  read_case get_next_stream_chunk_request root = do
    (stream_id, size) ← read_get_next_stream_chunk_request l root
    result (request (gets_chunk stream_id size))
  read_case pull_next_stream_chunk_request root =
      read_pull_next_stream_chunk_request l root >>= λ stream_id.
      result (request (pulls_chunk stream_id))
  read_case stop_stream_request root = do
    (stream_id, failed) ← read_stop_stream_request l root
    result (request (stops_stream stream_id failed))
  read_case put_name_request root = do
    (object_id, name) ← read_put_name_request l root
    result (request (puts_name object_id name))
  read_case get_name_request root = do
    (name, wait) ← read_get_name_request l root
    result (request (gets_name name wait))
  read_case drop_name_request root =
      read_drop_name_request l root >>= λ name. result (request (drops_name name))
  read_case cluster_meta_request root =
      read_cluster_meta_request l root >>= λ _. result (request asks_cluster)
  read_case instance_status_request root =
      read_instance_status_request l root >>= λ _. result (request asks_instance)
  read_case exit_request root = result exit
  read_case _ root = result unexpected

  unfoldable pub read_command : l.Ptree → Read (Command l.Ptree)
  read_command root =
      get_string l (codes "type") root >>= λ type. read_case (parse_command_type type) root

-- What `processMessage` does with a message: it writes an error, calls an operation of the server,
-- answers true to leave, ignores it, or an exception leaves it.
pub data Handling (P : Type 0) : Type 0 where
  writes : P → Handling P
  calls : Request P → Handling P
  leaves : Handling P
  ignores : Handling P
  escapes : Handling P

module _ (l : PtreeLibrary) where
  -- An error's reply with its code.
  abbrev pub error_message : ℕ → Text → l.Ptree
  error_message code text =
      message l (field (codes "code") (l.of_number code) ∷ field (codes "message") text ∷ [])

  unfoldable pub handle : Text → Read (Command l.Ptree) → Handling l.Ptree
  handle text (result (request r)) = calls r
  handle text (result exit) = leaves
  handle text (result unexpected) = ignores
  handle text (refused code) = writes (error_message code text)
  handle text thrown = escapes

  -- `processMessage`: what `read_json` makes of the message, where none is its exception, which is
  -- caught. The text is that of the error, if there is one.
  unfoldable pub process_message : Text → Option l.Ptree → Handling l.Ptree
  process_message text none = writes (write_error_reply l invalid text)
  process_message text (some root) = handle text (read_command l root)
