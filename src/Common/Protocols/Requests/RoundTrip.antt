-- ===== src/Common/Protocols/Requests/RoundTrip.antt =====
-- The server reads what a client has written.
use libvineyard.Base.{ℕ, ◌<◌, ◌^◌, ◌≡◌, refl, Bool, List, Text, codes, arith}
use libvineyard.Common.Ptree.{is_plain, PtreeLibrary, PtreeLaws}
use libvineyard.Common.Protocols.{result}
use libvineyard.Common.Protocols.Fields.{
  plain_keys, seen_text, seen_child, get_child-message, get_string-message, get_number-message,
  get_bool-message, get_flag-message, expect_type-message,
}
use libvineyard.Common.Protocols.Requests.{
  join_ids, split_ids, write_register_request, read_register_request, write_get_data_request,
  read_get_data_request, write_list_data_request, read_list_data_request,
  write_create_buffer_request, read_create_buffer_request, write_create_data_request,
  read_create_data_request, write_persist_request, read_persist_request, write_if_persist_request,
  read_if_persist_request, write_exists_request, read_exists_request, write_del_data_request,
  read_del_data_request, write_cluster_meta_request, read_cluster_meta_request,
  write_instance_status_request, read_instance_status_request, write_put_name_request,
  read_put_name_request, write_get_name_request, read_get_name_request, write_drop_name_request,
  read_drop_name_request, write_create_stream_request, read_create_stream_request,
  write_get_next_stream_chunk_request, read_get_next_stream_chunk_request,
  write_pull_next_stream_chunk_request, read_pull_next_stream_chunk_request,
  write_stop_stream_request, read_stop_stream_request, write_shallow_copy_request,
  read_shallow_copy_request,
}
use libvineyard.Meta.Paths.{text_eq, has_char}

module _ {l : PtreeLibrary} (w : PtreeLaws l) where
  pub register_request_roundtrip : read_register_request l (write_register_request l) ≡ result tt
  unfolding read_register_request write_register_request is_plain has_char text_eq plain_keys
      seen_text
  register_request_roundtrip = rw (expect_type-message w _ _ refl refl)

  pub get_data_request_roundtrip :
      (ids : List ℕ) (sync_remote : Bool) (wait : Bool) (ids-back : split_ids (join_ids ids) ≡ ids)
      → read_get_data_request l (write_get_data_request l ids sync_remote wait)
        ≡ result (ids, sync_remote, wait)
  unfolding read_get_data_request write_get_data_request is_plain has_char text_eq plain_keys
      seen_text
  get_data_request_roundtrip ids sync_remote wait ids-back = rw (
    expect_type-message w _ _ refl refl,
    get_string-message w (codes "id") _ _ refl refl refl,
    ids-back,
    get_bool-message w (codes "sync_remote") _ sync_remote refl refl refl,
    get_bool-message w (codes "wait") _ wait refl refl refl,
  )

  pub list_data_request_roundtrip :
      (pattern : Text) (regex : Bool) (limit : ℕ) (limit-fits : limit < 2 ^ 64)
      → read_list_data_request l (write_list_data_request l pattern regex limit)
        ≡ result (pattern, regex, limit)
  unfolding read_list_data_request write_list_data_request is_plain has_char text_eq plain_keys
      seen_text
  list_data_request_roundtrip pattern regex limit limit-fits = rw (
    expect_type-message w _ _ refl refl,
    get_string-message w (codes "pattern") _ _ refl refl refl,
    get_bool-message w (codes "regex") _ regex refl refl refl,
    get_number-message w (2 ^ 64) (codes "limit") _ limit refl refl refl limit-fits (omega arith),
  )

  pub create_buffer_request_roundtrip :
      (size : ℕ) (size-fits : size < 2 ^ 64)
      → read_create_buffer_request l (write_create_buffer_request l size) ≡ result size
  unfolding read_create_buffer_request write_create_buffer_request is_plain has_char text_eq
      plain_keys seen_text
  create_buffer_request_roundtrip size size-fits = rw (
    expect_type-message w _ _ refl refl,
    get_number-message w (2 ^ 64) (codes "size") _ size refl refl refl size-fits (omega arith),
  )

  pub create_data_request_roundtrip :
      (content : l.Ptree)
      → read_create_data_request l (write_create_data_request l content) ≡ result content
  unfolding read_create_data_request write_create_data_request is_plain has_char text_eq plain_keys
      seen_text seen_child
  create_data_request_roundtrip content = rw (
    expect_type-message w _ _ refl refl,
    get_child-message w (codes "content") _ content refl refl refl,
  )

  pub persist_request_roundtrip :
      (id : ℕ) (id-fits : id < 2 ^ 64)
      → read_persist_request l (write_persist_request l id) ≡ result id
  unfolding read_persist_request write_persist_request is_plain has_char text_eq plain_keys
      seen_text
  persist_request_roundtrip id id-fits = rw (
    expect_type-message w _ _ refl refl,
    get_number-message w (2 ^ 64) (codes "id") _ id refl refl refl id-fits (omega arith),
  )

  pub if_persist_request_roundtrip :
      (id : ℕ) (id-fits : id < 2 ^ 64)
      → read_if_persist_request l (write_if_persist_request l id) ≡ result id
  unfolding read_if_persist_request write_if_persist_request is_plain has_char text_eq plain_keys
      seen_text
  if_persist_request_roundtrip id id-fits = rw (
    expect_type-message w _ _ refl refl,
    get_number-message w (2 ^ 64) (codes "id") _ id refl refl refl id-fits (omega arith),
  )

  pub exists_request_roundtrip :
      (id : ℕ) (id-fits : id < 2 ^ 64)
      → read_exists_request l (write_exists_request l id) ≡ result id
  unfolding read_exists_request write_exists_request is_plain has_char text_eq plain_keys seen_text
  exists_request_roundtrip id id-fits = rw (
    expect_type-message w _ _ refl refl,
    get_number-message w (2 ^ 64) (codes "id") _ id refl refl refl id-fits (omega arith),
  )

  pub del_data_request_roundtrip :
      (ids : List ℕ) (force : Bool) (deep : Bool) (ids-back : split_ids (join_ids ids) ≡ ids)
      → read_del_data_request l (write_del_data_request l ids force deep)
        ≡ result (ids, force, deep)
  unfolding read_del_data_request write_del_data_request is_plain has_char text_eq plain_keys
      seen_text
  del_data_request_roundtrip ids force deep ids-back = rw (
    expect_type-message w _ _ refl refl,
    get_string-message w (codes "id") _ _ refl refl refl,
    ids-back,
    get_flag-message w (codes "force") _ force refl refl refl,
    get_flag-message w (codes "deep") _ deep refl refl refl,
  )

  pub cluster_meta_request_roundtrip :
      read_cluster_meta_request l (write_cluster_meta_request l) ≡ result tt
  unfolding read_cluster_meta_request write_cluster_meta_request is_plain has_char text_eq
      plain_keys seen_text
  cluster_meta_request_roundtrip = rw (expect_type-message w _ _ refl refl)

  pub instance_status_request_roundtrip :
      read_instance_status_request l (write_instance_status_request l) ≡ result tt
  unfolding read_instance_status_request write_instance_status_request is_plain has_char text_eq
      plain_keys seen_text
  instance_status_request_roundtrip = rw (expect_type-message w _ _ refl refl)

  pub put_name_request_roundtrip :
      (object_id : ℕ) (name : Text) (object_id-fits : object_id < 2 ^ 64)
      → read_put_name_request l (write_put_name_request l object_id name) ≡ result (object_id, name)
  unfolding read_put_name_request write_put_name_request is_plain has_char text_eq plain_keys
      seen_text
  put_name_request_roundtrip object_id name object_id-fits = rw (
    expect_type-message w _ _ refl refl,
    get_number-message w (2 ^ 64) (codes "object_id") _ object_id refl refl refl object_id-fits
        (omega arith),
    get_string-message w (codes "name") _ _ refl refl refl,
  )

  pub get_name_request_roundtrip :
      (name : Text) (wait : Bool)
      → read_get_name_request l (write_get_name_request l name wait) ≡ result (name, wait)
  unfolding read_get_name_request write_get_name_request is_plain has_char text_eq plain_keys
      seen_text
  get_name_request_roundtrip name wait = rw (
    expect_type-message w _ _ refl refl,
    get_string-message w (codes "name") _ _ refl refl refl,
    get_bool-message w (codes "wait") _ wait refl refl refl,
  )

  pub drop_name_request_roundtrip :
      (name : Text) → read_drop_name_request l (write_drop_name_request l name) ≡ result name
  unfolding read_drop_name_request write_drop_name_request is_plain has_char text_eq plain_keys
      seen_text
  drop_name_request_roundtrip name =
      rw (
        expect_type-message w _ _ refl refl,
        get_string-message w (codes "name") _ _ refl refl refl,
      )

  pub create_stream_request_roundtrip :
      (object_id : ℕ) (object_id-fits : object_id < 2 ^ 64)
      → read_create_stream_request l (write_create_stream_request l object_id) ≡ result object_id
  unfolding read_create_stream_request write_create_stream_request is_plain has_char text_eq
      plain_keys seen_text
  create_stream_request_roundtrip object_id object_id-fits = rw (
    expect_type-message w _ _ refl refl,
    get_number-message w (2 ^ 64) (codes "object_id") _ object_id refl refl refl object_id-fits
        (omega arith),
  )

  pub get_next_stream_chunk_request_roundtrip :
      (stream_id : ℕ) (size : ℕ) (stream_id-fits : stream_id < 2 ^ 64) (size-fits : size < 2 ^ 64)
      → read_get_next_stream_chunk_request l (write_get_next_stream_chunk_request l stream_id size)
        ≡ result (stream_id, size)
  unfolding read_get_next_stream_chunk_request write_get_next_stream_chunk_request is_plain has_char
      text_eq plain_keys seen_text
  get_next_stream_chunk_request_roundtrip stream_id size stream_id-fits size-fits = rw (
    expect_type-message w _ _ refl refl,
    get_number-message w (2 ^ 64) (codes "id") _ stream_id refl refl refl stream_id-fits
        (omega arith),
    get_number-message w (2 ^ 64) (codes "size") _ size refl refl refl size-fits (omega arith),
  )

  pub pull_next_stream_chunk_request_roundtrip :
      (stream_id : ℕ) (stream_id-fits : stream_id < 2 ^ 64)
      → read_pull_next_stream_chunk_request l (write_pull_next_stream_chunk_request l stream_id)
        ≡ result stream_id
  unfolding read_pull_next_stream_chunk_request write_pull_next_stream_chunk_request is_plain
      has_char text_eq plain_keys seen_text
  pull_next_stream_chunk_request_roundtrip stream_id stream_id-fits = rw (
    expect_type-message w _ _ refl refl,
    get_number-message w (2 ^ 64) (codes "id") _ stream_id refl refl refl stream_id-fits
        (omega arith),
  )

  pub stop_stream_request_roundtrip :
      (stream_id : ℕ) (failed : Bool) (stream_id-fits : stream_id < 2 ^ 64)
      → read_stop_stream_request l (write_stop_stream_request l stream_id failed)
        ≡ result (stream_id, failed)
  unfolding read_stop_stream_request write_stop_stream_request is_plain has_char text_eq plain_keys
      seen_text
  stop_stream_request_roundtrip stream_id failed stream_id-fits = rw (
    expect_type-message w _ _ refl refl,
    get_number-message w (2 ^ 64) (codes "id") _ stream_id refl refl refl stream_id-fits
        (omega arith),
    get_bool-message w (codes "failed") _ failed refl refl refl,
  )

  pub shallow_copy_request_roundtrip :
      (id : ℕ) (id-fits : id < 2 ^ 64)
      → read_shallow_copy_request l (write_shallow_copy_request l id) ≡ result id
  unfolding read_shallow_copy_request write_shallow_copy_request is_plain has_char text_eq
      plain_keys seen_text
  shallow_copy_request_roundtrip id id-fits = rw (
    expect_type-message w _ _ refl refl,
    get_number-message w (2 ^ 64) (codes "id") _ id refl refl refl id-fits (omega arith),
  )
