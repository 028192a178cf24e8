-- ===== src/Common/Protocols/Replies/RoundTrip.antt =====
-- A client reads what the server has written.
use libvineyard.Base.{ℕ, ◌<◌, ◌^◌, ◌≡◌, refl, Bool, false, List, [], ◌∷◌, Text, codes, arith}
use libvineyard.Base.Table.{Table, emplace}
use libvineyard.Common.Status.{Status, is_ok}
use libvineyard.Common.Ptree.{is_plain, PtreeLibrary, PtreeLaws}
use libvineyard.Common.Protocols.{result, refused, code_of, check_ipc_error, write_error_reply}
use libvineyard.Common.Protocols.Fields.{
  plain_keys, seen_text, seen_child, get_text-message, get_child-message, get_string-message,
  get_number-message, get_bool-message, check_ipc_error-message,
}
use libvineyard.Common.Protocols.Replies.{
  payload_to_json, payload_from_json, emplace_objects, read_get_data_replies, write_register_reply,
  read_register_reply, write_create_data_reply, read_create_data_reply, write_persist_reply,
  read_persist_reply, write_if_persist_reply, read_if_persist_reply, write_exists_reply,
  read_exists_reply, write_del_data_reply, read_del_data_reply, write_cluster_meta_reply,
  read_cluster_meta_reply, write_instance_status_reply, read_instance_status_reply,
  write_put_name_reply, read_put_name_reply, write_get_name_reply, read_get_name_reply,
  write_drop_name_reply, read_drop_name_reply, write_create_stream_reply, read_create_stream_reply,
  write_get_next_stream_chunk_reply, read_get_next_stream_chunk_reply,
  write_pull_next_stream_chunk_reply, read_pull_next_stream_chunk_reply, write_stop_stream_reply,
  read_stop_stream_reply, write_shallow_copy_reply, read_shallow_copy_reply, write_get_data_reply,
  read_get_data_reply, write_create_buffer_reply, read_create_buffer_reply,
}
use libvineyard.Memory.BulkStore.{Payload}
use libvineyard.Meta.Paths.{text_eq, has_char}

-- The numbers of a payload fit their types.
abbrev pub PayloadFits : Payload → Type 0
PayloadFits p =
    (p.object_id < 2 ^ 64)
    × (p.store_fd < 2 ^ 31)
    × (p.data_offset < 2 ^ 63)
    × (p.data_size < 2 ^ 63)
    × (p.map_size < 2 ^ 63)

-- The pointer stays in the server.
abbrev pub seen_payload : Payload → Payload
seen_payload p = record p { pointer = 0 }

abbrev pub emplace_payloads : List Payload → Table Payload → Table Payload
emplace_payloads [] objects = objects
emplace_payloads (p ∷ ps) objects =
    emplace_payloads ps (emplace p.object_id (seen_payload p) objects)

-- The codes of errors are those of a byte other than 0.
code_range :
    (status : Status) → is_ok status ≡ false → (0 < code_of status) × (code_of status < 256)
unfolding code_of
code_range Status.ok h = absurd (ground arith)
code_range _ h = (omega arith, omega arith)

module _ {l : PtreeLibrary} (w : PtreeLaws l) where
  pub payload_from_json-payload_to_json :
      (p : Payload)
      → PayloadFits p
      → payload_from_json l (payload_to_json l p) ≡ result (seen_payload p)
  unfolding payload_from_json payload_to_json is_plain has_char text_eq plain_keys seen_text
  payload_from_json-payload_to_json p (a, b, c, d, e) = rw (
    get_number-message w (2 ^ 64) (codes "object_id") _ p.object_id refl refl refl a (omega arith),
    get_number-message w (2 ^ 31) (codes "store_fd") _ p.store_fd refl refl refl b (omega arith),
    get_number-message w (2 ^ 63) (codes "data_offset") _ p.data_offset refl refl refl c
        (omega arith),
    get_number-message w (2 ^ 63) (codes "data_size") _ p.data_size refl refl refl d (omega arith),
    get_number-message w (2 ^ 63) (codes "map_size") _ p.map_size refl refl refl e (omega arith),
  )

  pub register_reply_roundtrip :
      (ipc_socket : Text) (rpc_endpoint : Text) (instance_id : ℕ)
      (instance_id-fits : instance_id < 2 ^ 64)
      → read_register_reply l (write_register_reply l ipc_socket rpc_endpoint instance_id)
        ≡ result (ipc_socket, rpc_endpoint, instance_id)
  unfolding read_register_reply write_register_reply is_plain has_char text_eq plain_keys seen_text
  register_reply_roundtrip ipc_socket rpc_endpoint instance_id instance_id-fits = rw (
    check_ipc_error-message w _ _ refl refl refl,
    get_string-message w (codes "ipc_socket") _ _ refl refl refl,
    get_string-message w (codes "rpc_endpoint") _ _ refl refl refl,
    get_number-message w (2 ^ 64) (codes "instance_id") _ instance_id refl refl refl
        instance_id-fits (omega arith),
  )

  pub create_data_reply_roundtrip :
      (id : ℕ) (instance_id : ℕ) (id-fits : id < 2 ^ 64) (instance_id-fits : instance_id < 2 ^ 64)
      → read_create_data_reply l (write_create_data_reply l id instance_id)
        ≡ result (id, instance_id)
  unfolding read_create_data_reply write_create_data_reply is_plain has_char text_eq plain_keys
      seen_text
  create_data_reply_roundtrip id instance_id id-fits instance_id-fits = rw (
    check_ipc_error-message w _ _ refl refl refl,
    get_number-message w (2 ^ 64) (codes "id") _ id refl refl refl id-fits (omega arith),
    get_number-message w (2 ^ 64) (codes "instance_id") _ instance_id refl refl refl
        instance_id-fits (omega arith),
  )

  pub persist_reply_roundtrip : read_persist_reply l (write_persist_reply l) ≡ result tt
  unfolding read_persist_reply write_persist_reply is_plain has_char text_eq plain_keys seen_text
  persist_reply_roundtrip = rw (check_ipc_error-message w _ _ refl refl refl)

  pub if_persist_reply_roundtrip :
      (persist : Bool) → read_if_persist_reply l (write_if_persist_reply l persist) ≡ result persist
  unfolding read_if_persist_reply write_if_persist_reply is_plain has_char text_eq plain_keys
      seen_text
  if_persist_reply_roundtrip persist = rw (
    check_ipc_error-message w _ _ refl refl refl,
    get_bool-message w (codes "persist") _ persist refl refl refl,
  )

  pub exists_reply_roundtrip :
      (exists : Bool) → read_exists_reply l (write_exists_reply l exists) ≡ result exists
  unfolding read_exists_reply write_exists_reply is_plain has_char text_eq plain_keys seen_text
  exists_reply_roundtrip exists = rw (
    check_ipc_error-message w _ _ refl refl refl,
    get_bool-message w (codes "exists") _ exists refl refl refl,
  )

  pub del_data_reply_roundtrip : read_del_data_reply l (write_del_data_reply l) ≡ result tt
  unfolding read_del_data_reply write_del_data_reply is_plain has_char text_eq plain_keys seen_text
  del_data_reply_roundtrip = rw (check_ipc_error-message w _ _ refl refl refl)

  pub cluster_meta_reply_roundtrip :
      (meta : l.Ptree) → read_cluster_meta_reply l (write_cluster_meta_reply l meta) ≡ result meta
  unfolding read_cluster_meta_reply write_cluster_meta_reply is_plain has_char text_eq plain_keys
      seen_text seen_child
  cluster_meta_reply_roundtrip meta = rw (
    check_ipc_error-message w _ _ refl refl refl,
    get_child-message w (codes "meta") _ meta refl refl refl,
  )

  pub instance_status_reply_roundtrip :
      (meta : l.Ptree)
      → read_instance_status_reply l (write_instance_status_reply l meta) ≡ result meta
  unfolding read_instance_status_reply write_instance_status_reply is_plain has_char text_eq
      plain_keys seen_text seen_child
  instance_status_reply_roundtrip meta = rw (
    check_ipc_error-message w _ _ refl refl refl,
    get_child-message w (codes "meta") _ meta refl refl refl,
  )

  pub put_name_reply_roundtrip : read_put_name_reply l (write_put_name_reply l) ≡ result tt
  unfolding read_put_name_reply write_put_name_reply is_plain has_char text_eq plain_keys seen_text
  put_name_reply_roundtrip = rw (check_ipc_error-message w _ _ refl refl refl)

  pub get_name_reply_roundtrip :
      (object_id : ℕ) (object_id-fits : object_id < 2 ^ 64)
      → read_get_name_reply l (write_get_name_reply l object_id) ≡ result object_id
  unfolding read_get_name_reply write_get_name_reply is_plain has_char text_eq plain_keys seen_text
  get_name_reply_roundtrip object_id object_id-fits = rw (
    check_ipc_error-message w _ _ refl refl refl,
    get_number-message w (2 ^ 64) (codes "object_id") _ object_id refl refl refl object_id-fits
        (omega arith),
  )

  pub drop_name_reply_roundtrip : read_drop_name_reply l (write_drop_name_reply l) ≡ result tt
  unfolding read_drop_name_reply write_drop_name_reply is_plain has_char text_eq plain_keys
      seen_text
  drop_name_reply_roundtrip = rw (check_ipc_error-message w _ _ refl refl refl)

  pub create_stream_reply_roundtrip :
      read_create_stream_reply l (write_create_stream_reply l) ≡ result tt
  unfolding read_create_stream_reply write_create_stream_reply is_plain has_char text_eq plain_keys
      seen_text
  create_stream_reply_roundtrip = rw (check_ipc_error-message w _ _ refl refl refl)

  pub get_next_stream_chunk_reply_roundtrip :
      (object : Payload) (object-fits : PayloadFits object)
      → read_get_next_stream_chunk_reply l (write_get_next_stream_chunk_reply l object)
        ≡ result (seen_payload object)
  unfolding read_get_next_stream_chunk_reply write_get_next_stream_chunk_reply is_plain has_char
      text_eq plain_keys seen_text seen_child
  get_next_stream_chunk_reply_roundtrip object object-fits = rw (
    check_ipc_error-message w _ _ refl refl refl,
    get_child-message w (codes "buffer") _ _ refl refl refl,
    payload_from_json-payload_to_json object object-fits,
  )

  pub pull_next_stream_chunk_reply_roundtrip :
      (object : Payload) (object-fits : PayloadFits object)
      → read_pull_next_stream_chunk_reply l (write_pull_next_stream_chunk_reply l object)
        ≡ result (seen_payload object)
  unfolding read_pull_next_stream_chunk_reply write_pull_next_stream_chunk_reply is_plain has_char
      text_eq plain_keys seen_text seen_child
  pull_next_stream_chunk_reply_roundtrip object object-fits = rw (
    check_ipc_error-message w _ _ refl refl refl,
    get_child-message w (codes "buffer") _ _ refl refl refl,
    payload_from_json-payload_to_json object object-fits,
  )

  pub stop_stream_reply_roundtrip : read_stop_stream_reply l (write_stop_stream_reply l) ≡ result tt
  unfolding read_stop_stream_reply write_stop_stream_reply is_plain has_char text_eq plain_keys
      seen_text
  stop_stream_reply_roundtrip = rw (check_ipc_error-message w _ _ refl refl refl)

  pub shallow_copy_reply_roundtrip :
      (target_id : ℕ) (target_id-fits : target_id < 2 ^ 64)
      → read_shallow_copy_reply l (write_shallow_copy_reply l target_id) ≡ result target_id
  unfolding read_shallow_copy_reply write_shallow_copy_reply is_plain has_char text_eq plain_keys
      seen_text
  shallow_copy_reply_roundtrip target_id target_id-fits = rw (
    check_ipc_error-message w _ _ refl refl refl,
    get_number-message w (2 ^ 64) (codes "target_id") _ target_id refl refl refl target_id-fits
        (omega arith),
  )

  pub create_buffer_reply_roundtrip :
      (id : ℕ) (object : Payload)
      → id < 2 ^ 64
      → PayloadFits object
      → read_create_buffer_reply l (write_create_buffer_reply l id object)
        ≡ result (id, seen_payload object)
  unfolding read_create_buffer_reply write_create_buffer_reply is_plain has_char text_eq plain_keys
      seen_text seen_child
  create_buffer_reply_roundtrip id object h fits = rw (
    check_ipc_error-message w _ _ refl refl refl,
    get_child-message w (codes "created") _ _ refl refl refl,
    get_number-message w (2 ^ 64) (codes "id") _ id refl refl refl h (omega arith),
    payload_from_json-payload_to_json object fits,
  )

  -- One object comes back from the group that it alone is in.
  pub get_data_reply_roundtrip :
      (key : Text) (content content_group : l.Ptree)
      → l.children content_group ≡ (key, content) ∷ []
      → read_get_data_reply l (write_get_data_reply l content_group) ≡ result content
  unfolding read_get_data_reply write_get_data_reply is_plain has_char text_eq plain_keys seen_text
      seen_child
  get_data_reply_roundtrip key content content_group e = rw (
    check_ipc_error-message w _ _ refl refl refl,
    get_child-message w (codes "content") _ content_group refl refl refl,
    e,
  )

  pub get_data_replies_roundtrip :
      (content_group : l.Ptree)
      → read_get_data_replies l (write_get_data_reply l content_group)
        ≡ result (emplace_objects l (l.children content_group) [])
  unfolding read_get_data_replies write_get_data_reply is_plain has_char text_eq plain_keys
      seen_text seen_child
  get_data_replies_roundtrip content_group = rw (
    check_ipc_error-message w _ _ refl refl refl,
    get_child-message w (codes "content") _ content_group refl refl refl,
  )

  -- An error reply is read as the error, whatever reply the client waits for.
  pub check_ipc_error-write_error_reply :
      (status : Status) (text type : Text)
      → is_ok status ≡ false
      → check_ipc_error l type (write_error_reply l status text) ≡ refused (code_of status)
  unfolding check_ipc_error write_error_reply is_plain has_char plain_keys seen_text text_eq
  check_ipc_error-write_error_reply status text type h =
      let (low, high) = code_range status h in
      rw
        (
          h,
          get_text-message w (codes "code") _ refl refl,
          w.number_roundtrip (2 ^ 31) (code_of status) (omega arith) (omega arith),
        )
        (ground arith)
