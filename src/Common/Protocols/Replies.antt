-- ===== src/Common/Protocols/Replies.antt =====
-- src/common/util/protocols.cc and src/common/memory/payload.cc: the messages with which the server
-- answers, and how a client reads them.
pub mod RoundTrip
pub mod Buffers
use libvineyard.Base.{
  ℕ, zero, suc, ◌^◌, ◌+◌, Bool, true, false, Option, none, some, List, [], ◌∷◌, ◌++◌, Text, codes,
  length, map, ◌==◌, if◌then◌else◌,
}
use libvineyard.Base.Table.{Table, emplace, contains}
use libvineyard.Common.Status.{Status}
use libvineyard.Common.Uuid.{object_id_from_string}
use libvineyard.Common.Ptree.{PtreeLibrary}
use libvineyard.Common.Protocols.{
  Read, result, refused, thrown, ◌>>=◌, ◌>>◌, Entry, field, member, message, get_string, get_word,
  get_number, get_bool, get_flag, get_child, check_ipc_error, add_entries, code_of,
}
use libvineyard.Common.Protocols.Requests.{type_field, number_field, bool_field}
use libvineyard.Memory.BulkStore.{Payload}
use libvineyard.Meta.Paths.{to_string}

module _ (l : PtreeLibrary) where
  -- `Payload::ToJSON`
  unfoldable pub payload_to_json : Payload → l.Ptree
  payload_to_json p = message l (
      number_field l (codes "object_id") p.object_id
      ∷ number_field l (codes "store_fd") p.store_fd
      ∷ number_field l (codes "data_offset") p.data_offset
      ∷ number_field l (codes "data_size") p.data_size
      ∷ number_field l (codes "map_size") p.map_size
      ∷ [])

  -- `Payload::FromJSON`, of numbers that are not negative: an int, and three of 64 bits with a sign.
  unfoldable pub payload_from_json : l.Ptree → Read Payload
  payload_from_json root = do
    object_id ← get_word l (codes "object_id") root
    store_fd ← get_number l (2 ^ 31) (codes "store_fd") root
    data_offset ← get_number l (2 ^ 63) (codes "data_offset") root
    data_size ← get_number l (2 ^ 63) (codes "data_size") root
    map_size ← get_number l (2 ^ 63) (codes "map_size") root
    result (record {
      object_id = object_id;
      store_fd = store_fd;
      data_offset = data_offset;
      data_size = data_size;
      map_size = map_size;
      pointer = 0;
    })

  unfoldable pub write_register_reply : Text → Text → ℕ → l.Ptree
  write_register_reply ipc_socket rpc_endpoint instance_id = message l (
      type_field l (codes "register_reply")
      ∷ field (codes "ipc_socket") ipc_socket
      ∷ field (codes "rpc_endpoint") rpc_endpoint
      ∷ number_field l (codes "instance_id") instance_id
      ∷ [])

  unfoldable pub read_register_reply : l.Ptree → Read (Text × Text × ℕ)
  read_register_reply root = do
    check_ipc_error l (codes "register_reply") root
    ipc_socket ← get_string l (codes "ipc_socket") root
    rpc_endpoint ← get_string l (codes "rpc_endpoint") root
    instance_id ← get_word l (codes "instance_id") root
    result (ipc_socket, rpc_endpoint, instance_id)

  unfoldable pub write_create_data_reply : ℕ → ℕ → l.Ptree
  write_create_data_reply id instance_id = message l (
      type_field l (codes "create_data_reply")
      ∷ number_field l (codes "id") id
      ∷ number_field l (codes "instance_id") instance_id
      ∷ [])

  unfoldable pub read_create_data_reply : l.Ptree → Read (ℕ × ℕ)
  read_create_data_reply root = do
    check_ipc_error l (codes "create_data_reply") root
    id ← get_word l (codes "id") root
    instance_id ← get_word l (codes "instance_id") root
    result (id, instance_id)

  unfoldable pub write_persist_reply : l.Ptree
  write_persist_reply = message l (type_field l (codes "persist_reply") ∷ [])

  unfoldable pub read_persist_reply : l.Ptree → Read (Unit {0})
  read_persist_reply root = check_ipc_error l (codes "persist_reply") root

  unfoldable pub write_if_persist_reply : Bool → l.Ptree
  write_if_persist_reply persist =
      message l
        (type_field l (codes "if_persist_reply") ∷ bool_field l (codes "persist") persist ∷ [])

  unfoldable pub read_if_persist_reply : l.Ptree → Read Bool
  read_if_persist_reply root = do
    check_ipc_error l (codes "if_persist_reply") root
    persist ← get_bool l (codes "persist") root
    result persist

  unfoldable pub write_exists_reply : Bool → l.Ptree
  write_exists_reply exists =
      message l (type_field l (codes "exists_reply") ∷ bool_field l (codes "exists") exists ∷ [])

  unfoldable pub read_exists_reply : l.Ptree → Read Bool
  read_exists_reply root = do
    check_ipc_error l (codes "exists_reply") root
    exists ← get_bool l (codes "exists") root
    result exists

  unfoldable pub write_del_data_reply : l.Ptree
  write_del_data_reply = message l (type_field l (codes "del_data_reply") ∷ [])

  unfoldable pub read_del_data_reply : l.Ptree → Read (Unit {0})
  read_del_data_reply root = check_ipc_error l (codes "del_data_reply") root

  unfoldable pub write_cluster_meta_reply : l.Ptree → l.Ptree
  write_cluster_meta_reply meta =
      message l (type_field l (codes "cluster_meta") ∷ member (codes "meta") meta ∷ [])

  unfoldable pub read_cluster_meta_reply : l.Ptree → Read l.Ptree
  read_cluster_meta_reply root = do
    check_ipc_error l (codes "cluster_meta") root
    meta ← get_child l (codes "meta") root
    result meta

  unfoldable pub write_instance_status_reply : l.Ptree → l.Ptree
  write_instance_status_reply meta =
      message l (type_field l (codes "instance_status_reply") ∷ member (codes "meta") meta ∷ [])

  unfoldable pub read_instance_status_reply : l.Ptree → Read l.Ptree
  read_instance_status_reply root = do
    check_ipc_error l (codes "instance_status_reply") root
    meta ← get_child l (codes "meta") root
    result meta

  unfoldable pub write_put_name_reply : l.Ptree
  write_put_name_reply = message l (type_field l (codes "put_name_reply") ∷ [])

  unfoldable pub read_put_name_reply : l.Ptree → Read (Unit {0})
  read_put_name_reply root = check_ipc_error l (codes "put_name_reply") root

  unfoldable pub write_get_name_reply : ℕ → l.Ptree
  write_get_name_reply object_id =
      message l
        (type_field l (codes "get_name_reply") ∷ number_field l (codes "object_id") object_id ∷ [])

  unfoldable pub read_get_name_reply : l.Ptree → Read ℕ
  read_get_name_reply root = do
    check_ipc_error l (codes "get_name_reply") root
    object_id ← get_word l (codes "object_id") root
    result object_id

  unfoldable pub write_drop_name_reply : l.Ptree
  write_drop_name_reply = message l (type_field l (codes "drop_name_reply") ∷ [])

  unfoldable pub read_drop_name_reply : l.Ptree → Read (Unit {0})
  read_drop_name_reply root = check_ipc_error l (codes "drop_name_reply") root

  unfoldable pub write_create_stream_reply : l.Ptree
  write_create_stream_reply = message l (type_field l (codes "create_stream_reply") ∷ [])

  unfoldable pub read_create_stream_reply : l.Ptree → Read (Unit {0})
  read_create_stream_reply root = check_ipc_error l (codes "create_stream_reply") root

  unfoldable pub write_get_next_stream_chunk_reply : Payload → l.Ptree
  write_get_next_stream_chunk_reply object = message l (
      type_field l (codes "get_next_stream_chunk_reply")
      ∷ member (codes "buffer") (payload_to_json object)
      ∷ [])

  unfoldable pub read_get_next_stream_chunk_reply : l.Ptree → Read Payload
  read_get_next_stream_chunk_reply root = do
    check_ipc_error l (codes "get_next_stream_chunk_reply") root
    tree ← get_child l (codes "buffer") root
    payload_from_json tree

  unfoldable pub write_pull_next_stream_chunk_reply : Payload → l.Ptree
  write_pull_next_stream_chunk_reply object = message l (
      type_field l (codes "pull_next_stream_chunk_reply")
      ∷ member (codes "buffer") (payload_to_json object)
      ∷ [])

  unfoldable pub read_pull_next_stream_chunk_reply : l.Ptree → Read Payload
  read_pull_next_stream_chunk_reply root = do
    check_ipc_error l (codes "pull_next_stream_chunk_reply") root
    tree ← get_child l (codes "buffer") root
    payload_from_json tree

  unfoldable pub write_stop_stream_reply : l.Ptree
  write_stop_stream_reply = message l (type_field l (codes "stop_stream_reply") ∷ [])

  unfoldable pub read_stop_stream_reply : l.Ptree → Read (Unit {0})
  read_stop_stream_reply root = check_ipc_error l (codes "stop_stream_reply") root

  unfoldable pub write_shallow_copy_reply : ℕ → l.Ptree
  write_shallow_copy_reply target_id = message l (
      type_field l (codes "shallow_copy_reply") ∷ number_field l (codes "target_id") target_id ∷ [])

  unfoldable pub read_shallow_copy_reply : l.Ptree → Read ℕ
  read_shallow_copy_reply root = do
    check_ipc_error l (codes "shallow_copy_reply") root
    target_id ← get_word l (codes "target_id") root
    result target_id

  unfoldable pub write_get_data_reply : l.Ptree → l.Ptree
  write_get_data_reply content =
      message l (type_field l (codes "get_data_reply") ∷ member (codes "content") content ∷ [])

  -- `ReadGetDataReply` of one object.
  unfoldable pub read_get_data_reply : l.Ptree → Read l.Ptree
  read_get_data_reply root = do
    check_ipc_error l (codes "get_data_reply") root
    content_group ← get_child l (codes "content") root
    elim (l.children content_group) [
      | [] ↦ refused (code_of Status.object_not_exists)
      | (key, content) ∷ others ↦ elim others [
        | [] ↦ result content
        | _ ∷ _ ↦ refused (code_of Status.object_not_exists)
      ]
    ]

  -- `unordered_map::emplace` in a loop.
  unfoldable pub emplace_objects : List (Text × l.Ptree) → Table l.Ptree → Table l.Ptree
  emplace_objects [] content = content
  emplace_objects ((key, t) ∷ kvs) content =
      emplace_objects kvs (emplace (object_id_from_string key) t content)

  -- `ReadGetDataReply` of several objects.
  unfoldable pub read_get_data_replies : l.Ptree → Read (Table l.Ptree)
  read_get_data_replies root = do
    check_ipc_error l (codes "get_data_reply") root
    content_group ← get_child l (codes "content") root
    result (emplace_objects (l.children content_group) [])

  unfoldable pub write_create_buffer_reply : ℕ → Payload → l.Ptree
  write_create_buffer_reply id object = message l (
      type_field l (codes "create_buffer_reply")
      ∷ number_field l (codes "id") id
      ∷ member (codes "created") (payload_to_json object)
      ∷ [])

  unfoldable pub read_create_buffer_reply : l.Ptree → Read (ℕ × Payload)
  read_create_buffer_reply root = do
    check_ipc_error l (codes "create_buffer_reply") root
    tree ← get_child l (codes "created") root
    id ← get_word l (codes "id") root
    object ← payload_from_json tree
    result (id, object)

  -- The numbered members of `WriteGetBuffersReply`, from an index on.
  unfoldable pub numbered_payloads : ℕ → List Payload → List (Entry l.Ptree)
  numbered_payloads i [] = []
  numbered_payloads i (p ∷ ps) =
      member (to_string i) (payload_to_json p) ∷ numbered_payloads (suc i) ps

  unfoldable pub write_get_buffers_reply : List Payload → l.Ptree
  write_get_buffers_reply objects = message l (
      type_field l (codes "get_buffers_reply")
      ∷ (numbered_payloads 0 objects ++ number_field l (codes "num") (length objects) ∷ []))

  -- The loop that reads as many payloads as there are left, from an index on.
  unfoldable pub read_payloads : ℕ → ℕ → Table Payload → l.Ptree → Read (Table Payload)
  read_payloads zero i objects root = result objects
  read_payloads (suc left) i objects root = do
    tree ← get_child l (to_string i) root
    object ← payload_from_json tree
    read_payloads left (suc i) (emplace object.object_id object objects) root

  unfoldable pub read_get_buffers_reply : l.Ptree → Read (Table Payload)
  read_get_buffers_reply root = do
    check_ipc_error l (codes "get_buffers_reply") root
    num ← get_word l (codes "num") root
    read_payloads num 0 [] root
