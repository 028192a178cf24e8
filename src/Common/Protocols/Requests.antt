-- ===== src/Common/Protocols/Requests.antt =====
-- src/common/util/protocols.cc: the messages that a client sends, and how the server reads them.
pub mod Ids
pub mod RoundTrip
pub mod Buffers
use libvineyard.Base.{
  ℕ, ◌^◌, suc, zero, Bool, List, [], ◌∷◌, Text, codes, map, length, ◌++◌, ◌==◌, if◌then◌else◌,
}
use libvineyard.Common.Uuid.{object_id_to_string, object_id_from_string}
use libvineyard.Common.Ptree.{PtreeLibrary}
use libvineyard.Common.Protocols.{
  Read, result, refused, thrown, ◌>>=◌, ◌>>◌, Entry, field, member, message, get_string, get_word,
  get_number, get_bool, get_flag, get_child, expect_type, add_entries,
}
use libvineyard.Meta.Paths.{to_string}

-- `boost::algorithm::join` with semicolons.
unfoldable pub join : List Text → Text
join [] = []
join (s ∷ []) = s
join (s ∷ t ∷ rest) = s ++ b';' ∷ join (t ∷ rest)

-- `boost::algorithm::split` at semicolons: the first part and the others.
unfoldable pub split : Text → Text × List Text
split [] = ([], [])
split (c ∷ s) =
    let (part, parts) = split s in if c == b';' then ([], part ∷ parts) else (c ∷ part, parts)

-- The ids of a request that takes several.
abbrev pub join_ids : List ℕ → Text
join_ids ids = join (map object_id_to_string ids)

abbrev pub split_ids : Text → List ℕ
split_ids s = let (part, parts) = split s in map object_id_from_string (part ∷ parts)

module _ (l : PtreeLibrary) where
  abbrev pub type_field : Text → Entry l.Ptree
  type_field type = field (codes "type") type

  -- A value of a word's or of a truth value's type.
  abbrev pub number_field : Text → ℕ → Entry l.Ptree
  number_field k n = field k (l.of_number n)

  abbrev pub bool_field : Text → Bool → Entry l.Ptree
  bool_field k b = field k (l.of_bool b)

  unfoldable pub write_register_request : l.Ptree
  write_register_request = message l (type_field (codes "register_request") ∷ [])

  unfoldable pub read_register_request : l.Ptree → Read (Unit {0})
  read_register_request root = expect_type l (codes "register_request") root

  unfoldable pub write_exit_request : l.Ptree
  write_exit_request = message l (type_field (codes "exit_request") ∷ [])

  -- `WriteGetDataRequest` of several ids; that of one id writes what this one does for it alone.
  unfoldable pub write_get_data_request : List ℕ → Bool → Bool → l.Ptree
  write_get_data_request ids sync_remote wait = message l (
      type_field (codes "get_data_request")
      ∷ field (codes "id") (join_ids ids)
      ∷ bool_field (codes "sync_remote") sync_remote
      ∷ bool_field (codes "wait") wait
      ∷ [])

  unfoldable pub read_get_data_request : l.Ptree → Read (List ℕ × Bool × Bool)
  read_get_data_request root = do
    expect_type l (codes "get_data_request") root
    id_string ← get_string l (codes "id") root
    sync_remote ← get_bool l (codes "sync_remote") root
    wait ← get_bool l (codes "wait") root
    result (split_ids id_string, sync_remote, wait)

  unfoldable pub write_list_data_request : Text → Bool → ℕ → l.Ptree
  write_list_data_request pattern regex limit = message l (
      type_field (codes "list_data_request")
      ∷ field (codes "pattern") pattern
      ∷ bool_field (codes "regex") regex
      ∷ number_field (codes "limit") limit
      ∷ [])

  unfoldable pub read_list_data_request : l.Ptree → Read (Text × Bool × ℕ)
  read_list_data_request root = do
    expect_type l (codes "list_data_request") root
    pattern ← get_string l (codes "pattern") root
    regex ← get_bool l (codes "regex") root
    limit ← get_word l (codes "limit") root
    result (pattern, regex, limit)

  unfoldable pub write_create_buffer_request : ℕ → l.Ptree
  write_create_buffer_request size =
      message l (type_field (codes "create_buffer_request") ∷ number_field (codes "size") size ∷ [])

  unfoldable pub read_create_buffer_request : l.Ptree → Read ℕ
  read_create_buffer_request root = do
    expect_type l (codes "create_buffer_request") root
    size ← get_word l (codes "size") root
    result size

  unfoldable pub write_create_data_request : l.Ptree → l.Ptree
  write_create_data_request content =
      message l (type_field (codes "create_data_request") ∷ member (codes "content") content ∷ [])

  unfoldable pub read_create_data_request : l.Ptree → Read l.Ptree
  read_create_data_request root = do
    expect_type l (codes "create_data_request") root
    content ← get_child l (codes "content") root
    result content

  unfoldable pub write_persist_request : ℕ → l.Ptree
  write_persist_request id =
      message l (type_field (codes "persist_request") ∷ number_field (codes "id") id ∷ [])

  unfoldable pub read_persist_request : l.Ptree → Read ℕ
  read_persist_request root = do
    expect_type l (codes "persist_request") root
    id ← get_word l (codes "id") root
    result id

  unfoldable pub write_if_persist_request : ℕ → l.Ptree
  write_if_persist_request id =
      message l (type_field (codes "if_persist_request") ∷ number_field (codes "id") id ∷ [])

  unfoldable pub read_if_persist_request : l.Ptree → Read ℕ
  read_if_persist_request root = do
    expect_type l (codes "if_persist_request") root
    id ← get_word l (codes "id") root
    result id

  unfoldable pub write_exists_request : ℕ → l.Ptree
  write_exists_request id =
      message l (type_field (codes "exists_request") ∷ number_field (codes "id") id ∷ [])

  unfoldable pub read_exists_request : l.Ptree → Read ℕ
  read_exists_request root = do
    expect_type l (codes "exists_request") root
    id ← get_word l (codes "id") root
    result id

  -- `WriteDelDataRequest` of several ids; that of one id writes what this one does for it alone.
  unfoldable pub write_del_data_request : List ℕ → Bool → Bool → l.Ptree
  write_del_data_request ids force deep = message l (
      type_field (codes "del_data_request")
      ∷ field (codes "id") (join_ids ids)
      ∷ bool_field (codes "force") force
      ∷ bool_field (codes "deep") deep
      ∷ [])

  unfoldable pub read_del_data_request : l.Ptree → Read (List ℕ × Bool × Bool)
  read_del_data_request root = do
    expect_type l (codes "del_data_request") root
    id_string ← get_string l (codes "id") root
    force ← get_flag l (codes "force") root
    deep ← get_flag l (codes "deep") root
    result (split_ids id_string, force, deep)

  unfoldable pub write_cluster_meta_request : l.Ptree
  write_cluster_meta_request = message l (type_field (codes "cluster_meta") ∷ [])

  unfoldable pub read_cluster_meta_request : l.Ptree → Read (Unit {0})
  read_cluster_meta_request root = expect_type l (codes "cluster_meta") root

  unfoldable pub write_instance_status_request : l.Ptree
  write_instance_status_request = message l (type_field (codes "instance_status_request") ∷ [])

  unfoldable pub read_instance_status_request : l.Ptree → Read (Unit {0})
  read_instance_status_request root = expect_type l (codes "instance_status_request") root

  unfoldable pub write_put_name_request : ℕ → Text → l.Ptree
  write_put_name_request object_id name = message l (
      type_field (codes "put_name_request")
      ∷ number_field (codes "object_id") object_id
      ∷ field (codes "name") name
      ∷ [])

  unfoldable pub read_put_name_request : l.Ptree → Read (ℕ × Text)
  read_put_name_request root = do
    expect_type l (codes "put_name_request") root
    object_id ← get_word l (codes "object_id") root
    name ← get_string l (codes "name") root
    result (object_id, name)

  unfoldable pub write_get_name_request : Text → Bool → l.Ptree
  write_get_name_request name wait = message l (
      type_field (codes "get_name_request")
      ∷ field (codes "name") name
      ∷ bool_field (codes "wait") wait
      ∷ [])

  unfoldable pub read_get_name_request : l.Ptree → Read (Text × Bool)
  read_get_name_request root = do
    expect_type l (codes "get_name_request") root
    name ← get_string l (codes "name") root
    wait ← get_bool l (codes "wait") root
    result (name, wait)

  unfoldable pub write_drop_name_request : Text → l.Ptree
  write_drop_name_request name =
      message l (type_field (codes "drop_name_request") ∷ field (codes "name") name ∷ [])

  unfoldable pub read_drop_name_request : l.Ptree → Read Text
  read_drop_name_request root = do
    expect_type l (codes "drop_name_request") root
    name ← get_string l (codes "name") root
    result name

  unfoldable pub write_create_stream_request : ℕ → l.Ptree
  write_create_stream_request object_id =
      message l (
        type_field (codes "create_stream_request")
        ∷ number_field (codes "object_id") object_id
        ∷ [])

  unfoldable pub read_create_stream_request : l.Ptree → Read ℕ
  read_create_stream_request root = do
    expect_type l (codes "create_stream_request") root
    object_id ← get_word l (codes "object_id") root
    result object_id

  unfoldable pub write_get_next_stream_chunk_request : ℕ → ℕ → l.Ptree
  write_get_next_stream_chunk_request stream_id size = message l (
      type_field (codes "get_next_stream_chunk_request")
      ∷ number_field (codes "id") stream_id
      ∷ number_field (codes "size") size
      ∷ [])

  unfoldable pub read_get_next_stream_chunk_request : l.Ptree → Read (ℕ × ℕ)
  read_get_next_stream_chunk_request root = do
    expect_type l (codes "get_next_stream_chunk_request") root
    stream_id ← get_word l (codes "id") root
    size ← get_word l (codes "size") root
    result (stream_id, size)

  unfoldable pub write_pull_next_stream_chunk_request : ℕ → l.Ptree
  write_pull_next_stream_chunk_request stream_id = message l (
      type_field (codes "pull_next_stream_chunk_request")
      ∷ number_field (codes "id") stream_id
      ∷ [])

  unfoldable pub read_pull_next_stream_chunk_request : l.Ptree → Read ℕ
  read_pull_next_stream_chunk_request root = do
    expect_type l (codes "pull_next_stream_chunk_request") root
    stream_id ← get_word l (codes "id") root
    result stream_id

  unfoldable pub write_stop_stream_request : ℕ → Bool → l.Ptree
  write_stop_stream_request stream_id failed = message l (
      type_field (codes "stop_stream_request")
      ∷ number_field (codes "id") stream_id
      ∷ bool_field (codes "failed") failed
      ∷ [])

  unfoldable pub read_stop_stream_request : l.Ptree → Read (ℕ × Bool)
  read_stop_stream_request root = do
    expect_type l (codes "stop_stream_request") root
    stream_id ← get_word l (codes "id") root
    failed ← get_bool l (codes "failed") root
    result (stream_id, failed)

  unfoldable pub write_shallow_copy_request : ℕ → l.Ptree
  write_shallow_copy_request id =
      message l (type_field (codes "shallow_copy_request") ∷ number_field (codes "id") id ∷ [])

  unfoldable pub read_shallow_copy_request : l.Ptree → Read ℕ
  read_shallow_copy_request root = do
    expect_type l (codes "shallow_copy_request") root
    id ← get_word l (codes "id") root
    result id

  -- The numbered entries of `WriteGetBuffersRequest`, from an index on. The ids are in the order in
  -- which the set gives them.
  unfoldable pub numbered_ids : ℕ → List ℕ → List (Entry l.Ptree)
  numbered_ids idx [] = []
  numbered_ids idx (id ∷ ids) = number_field (to_string idx) id ∷ numbered_ids (suc idx) ids

  unfoldable pub write_get_buffers_request : List ℕ → l.Ptree
  write_get_buffers_request ids = message l (
      type_field (codes "get_buffers_request")
      ∷ (numbered_ids 0 ids ++ number_field (codes "num") (length ids) ∷ []))

  -- The loop that reads as many ids as there are left, from an index on.
  unfoldable pub read_ids : ℕ → ℕ → l.Ptree → Read (List ℕ)
  read_ids zero i root = result []
  read_ids (suc left) i root = do
    id ← get_word l (to_string i) root
    ids ← read_ids left (suc i) root
    result (id ∷ ids)

  unfoldable pub read_get_buffers_request : l.Ptree → Read (List ℕ)
  read_get_buffers_request root = do
    expect_type l (codes "get_buffers_request") root
    num ← get_word l (codes "num") root
    read_ids num 0 root
