-- ===== src/Server/Sessions/Dispatch.antt =====
-- Every request that a client writes reaches the case of it, with its arguments.
use libvineyard.Base.{◌<◌, ◌^◌, ◌≡◌, refl, some, [], ◌∷◌, Text, codes, length}
use libvineyard.Common.Ptree.{PtreeLibrary, PtreeLaws, is_plain}
use libvineyard.Common.Protocols.{result, parse_from}
use libvineyard.Common.Protocols.Fields.{plain_keys, seen_text, get_string-message}
use libvineyard.Common.Protocols.Requests.{
  write_register_request, write_get_buffers_request, write_create_buffer_request,
  write_get_data_request, write_list_data_request, write_create_data_request, write_persist_request,
  write_if_persist_request, write_exists_request, write_shallow_copy_request,
  write_del_data_request, write_create_stream_request, write_get_next_stream_chunk_request,
  write_pull_next_stream_chunk_request, write_stop_stream_request, write_put_name_request,
  write_get_name_request, write_drop_name_request, write_cluster_meta_request,
  write_instance_status_request,
}
use libvineyard.Common.Protocols.Requests.Ids.{AllFit, split_ids-join_ids}
use libvineyard.Common.Protocols.Requests.Buffers.{
  get_buffers_request_type, get_buffers_request_roundtrip,
}
use libvineyard.Common.Protocols.Requests.RoundTrip.{
  register_request_roundtrip, create_buffer_request_roundtrip, get_data_request_roundtrip,
  list_data_request_roundtrip, create_data_request_roundtrip, persist_request_roundtrip,
  if_persist_request_roundtrip, exists_request_roundtrip, shallow_copy_request_roundtrip,
  del_data_request_roundtrip, create_stream_request_roundtrip,
  get_next_stream_chunk_request_roundtrip, pull_next_stream_chunk_request_roundtrip,
  stop_stream_request_roundtrip, put_name_request_roundtrip, get_name_request_roundtrip,
  drop_name_request_roundtrip, cluster_meta_request_roundtrip, instance_status_request_roundtrip,
}
use libvineyard.Meta.Paths.{text_eq, has_char}
use libvineyard.Server.Sessions.{
  Request, registers, gets_buffers, creates_buffer, gets_data, lists_data, creates_data, persists,
  asks_persist, asks_exists, copies, deletes, creates_stream, gets_chunk, pulls_chunk, stops_stream,
  puts_name, gets_name, drops_name, asks_cluster, asks_instance, request, calls, read_case,
  read_command, handle, process_message,
}

-- What a client writes for a request.
abbrev pub write_request : (l : PtreeLibrary) → Request l.Ptree → l.Ptree
write_request l registers = write_register_request l
write_request l (gets_buffers ids) = write_get_buffers_request l ids
write_request l (creates_buffer size) = write_create_buffer_request l size
write_request l (gets_data ids sync_remote wait) = write_get_data_request l ids sync_remote wait
write_request l (lists_data pattern regex limit) = write_list_data_request l pattern regex limit
write_request l (creates_data tree) = write_create_data_request l tree
write_request l (persists id) = write_persist_request l id
write_request l (asks_persist id) = write_if_persist_request l id
write_request l (asks_exists id) = write_exists_request l id
write_request l (copies id) = write_shallow_copy_request l id
write_request l (deletes ids force deep) = write_del_data_request l ids force deep
write_request l (creates_stream stream_id) = write_create_stream_request l stream_id
write_request l (gets_chunk stream_id size) = write_get_next_stream_chunk_request l stream_id size
write_request l (pulls_chunk stream_id) = write_pull_next_stream_chunk_request l stream_id
write_request l (stops_stream stream_id failed) = write_stop_stream_request l stream_id failed
write_request l (puts_name object_id name) = write_put_name_request l object_id name
write_request l (gets_name name wait) = write_get_name_request l name wait
write_request l (drops_name name) = write_drop_name_request l name
write_request l asks_cluster = write_cluster_meta_request l
write_request l asks_instance = write_instance_status_request l

-- Numbers fit in 64 bits, and there is at least one id.
abbrev pub Fits : {P : Type 0} → Request P → Type 0
Fits (gets_buffers ids) = (length ids < 2 ^ 64) × AllFit ids
Fits (creates_buffer size) = size < 2 ^ 64
Fits (gets_data [] sync_remote wait) = ⊥
Fits (gets_data (id ∷ ids) sync_remote wait) = AllFit (id ∷ ids)
Fits (lists_data pattern regex limit) = limit < 2 ^ 64
Fits (persists id) = id < 2 ^ 64
Fits (asks_persist id) = id < 2 ^ 64
Fits (asks_exists id) = id < 2 ^ 64
Fits (copies id) = id < 2 ^ 64
Fits (deletes [] force deep) = ⊥
Fits (deletes (id ∷ ids) force deep) = AllFit (id ∷ ids)
Fits (creates_stream id) = id < 2 ^ 64
Fits (gets_chunk id size) = (id < 2 ^ 64) × (size < 2 ^ 64)
Fits (pulls_chunk id) = id < 2 ^ 64
Fits (stops_stream id failed) = id < 2 ^ 64
Fits (puts_name id name) = id < 2 ^ 64
Fits _ = Unit

module _ {l : PtreeLibrary} (w : PtreeLaws l) where
  -- The case that a request is for reads it back.
  read_command-write_request :
      (r : Request l.Ptree) → Fits r → read_command l (write_request l r) ≡ result (request r)
  unfolding read_command read_case is_plain has_char text_eq plain_keys seen_text parse_from
      write_register_request write_create_buffer_request write_get_data_request
      write_list_data_request write_create_data_request write_persist_request
      write_if_persist_request write_exists_request write_shallow_copy_request
      write_del_data_request write_create_stream_request write_get_next_stream_chunk_request
      write_pull_next_stream_chunk_request write_stop_stream_request write_put_name_request
      write_get_name_request write_drop_name_request write_cluster_meta_request
      write_instance_status_request
  read_command-write_request registers h =
      rw (get_string-message w (codes "type") _ _ refl refl refl)
        (rw (register_request_roundtrip w))
  read_command-write_request (gets_buffers ids) (h, fit) =
      rw (get_buffers_request_type w ids) (rw (get_buffers_request_roundtrip w ids h fit))
  read_command-write_request (creates_buffer size) h =
      rw (get_string-message w (codes "type") _ _ refl refl refl)
        (rw (create_buffer_request_roundtrip w size h))
  read_command-write_request (gets_data [] sync_remote wait) h = absurd h
  read_command-write_request (gets_data (id ∷ ids) sync_remote wait) h =
      rw (get_string-message w (codes "type") _ _ refl refl refl) (
        rw (get_data_request_roundtrip w (id ∷ ids) sync_remote wait (split_ids-join_ids id ids h)))
  read_command-write_request (lists_data pattern regex limit) h =
      rw (get_string-message w (codes "type") _ _ refl refl refl)
        (rw (list_data_request_roundtrip w pattern regex limit h))
  read_command-write_request (creates_data tree) h =
      rw (get_string-message w (codes "type") _ _ refl refl refl)
        (rw (create_data_request_roundtrip w tree))
  read_command-write_request (persists id) h =
      rw (get_string-message w (codes "type") _ _ refl refl refl)
        (rw (persist_request_roundtrip w id h))
  read_command-write_request (asks_persist id) h =
      rw (get_string-message w (codes "type") _ _ refl refl refl)
        (rw (if_persist_request_roundtrip w id h))
  read_command-write_request (asks_exists id) h =
      rw (get_string-message w (codes "type") _ _ refl refl refl)
        (rw (exists_request_roundtrip w id h))
  read_command-write_request (copies id) h =
      rw (get_string-message w (codes "type") _ _ refl refl refl)
        (rw (shallow_copy_request_roundtrip w id h))
  read_command-write_request (deletes [] force deep) h = absurd h
  read_command-write_request (deletes (id ∷ ids) force deep) h =
      rw (get_string-message w (codes "type") _ _ refl refl refl)
        (rw (del_data_request_roundtrip w (id ∷ ids) force deep (split_ids-join_ids id ids h)))
  read_command-write_request (creates_stream stream_id) h =
      rw (get_string-message w (codes "type") _ _ refl refl refl)
        (rw (create_stream_request_roundtrip w stream_id h))
  read_command-write_request (gets_chunk stream_id size) h =
      rw (get_string-message w (codes "type") _ _ refl refl refl)
        (rw (get_next_stream_chunk_request_roundtrip w stream_id size h.0 h.1))
  read_command-write_request (pulls_chunk stream_id) h =
      rw (get_string-message w (codes "type") _ _ refl refl refl)
        (rw (pull_next_stream_chunk_request_roundtrip w stream_id h))
  read_command-write_request (stops_stream stream_id failed) h =
      rw (get_string-message w (codes "type") _ _ refl refl refl)
        (rw (stop_stream_request_roundtrip w stream_id failed h))
  read_command-write_request (puts_name object_id name) h =
      rw (get_string-message w (codes "type") _ _ refl refl refl)
        (rw (put_name_request_roundtrip w object_id name h))
  read_command-write_request (gets_name name wait) h =
      rw (get_string-message w (codes "type") _ _ refl refl refl)
        (rw (get_name_request_roundtrip w name wait))
  read_command-write_request (drops_name name) h =
      rw (get_string-message w (codes "type") _ _ refl refl refl)
        (rw (drop_name_request_roundtrip w name))
  read_command-write_request asks_cluster h =
      rw (get_string-message w (codes "type") _ _ refl refl refl)
        (rw (cluster_meta_request_roundtrip w))
  read_command-write_request asks_instance h =
      rw (get_string-message w (codes "type") _ _ refl refl refl)
        (rw (instance_status_request_roundtrip w))

  -- The server calls the operation for the request that a client writes, with its arguments, where its
  -- numbers fit their types and a list of ids to read or to delete is not empty.
  pub process_message-write_request :
      (text : Text) (r : Request l.Ptree)
      → Fits r
      → process_message l text (some (write_request l r)) ≡ calls r
  unfolding process_message handle
  process_message-write_request text r h = rw (read_command-write_request r h)
