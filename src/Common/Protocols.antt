-- ===== src/Common/Protocols.antt =====
-- src/common/util/protocols.cc: a message is a property tree, which the JSON library carries as text.
-- The messages of each kind are in the children.
pub mod Fields
pub mod Numbered
pub mod Requests
pub mod Replies
use libvineyard.Base.{
  ℕ, ◌^◌, ◌%◌, Bool, true, false, Option, none, some, List, [], ◌∷◌, if◌then◌else◌, is_set, Text,
  codes, chain, ◌==◌,
}
use libvineyard.Common.Status.{Status, is_ok}
use libvineyard.Common.Ptree.{PtreeLibrary, empty_tree, with_text}
use libvineyard.Common.Ptree.Fields.{get_text}
use libvineyard.Meta.Paths.{text_eq}

-- `CommandType`
pub data CommandType : Type 0 where
  null_command exit_request exit_reply register_request register_reply : CommandType
  get_data_request get_data_reply create_data_request persist_request exists_request : CommandType
  del_data_request cluster_meta_request list_data_request create_buffer_request : CommandType
  get_buffers_request create_stream_request get_next_stream_chunk_request : CommandType
  pull_next_stream_chunk_request stop_stream_request put_name_request : CommandType
  get_name_request drop_name_request if_persist_request instance_status_request : CommandType
  shallow_copy_request : CommandType

-- The names and the commands of `ParseCommandType`, in the order of its tests.
abbrev command_types : List (Text × CommandType)
command_types =
    (codes "exit_request", exit_request)
    ∷ (codes "exit_reply", exit_reply)
    ∷ (codes "register_request", register_request)
    ∷ (codes "register_reply", register_reply)
    ∷ (codes "get_data_request", get_data_request)
    ∷ (codes "get_data_reply", get_data_reply)
    ∷ (codes "create_data_request", create_data_request)
    ∷ (codes "persist_request", persist_request)
    ∷ (codes "exists_request", exists_request)
    ∷ (codes "del_data_request", del_data_request)
    ∷ (codes "cluster_meta", cluster_meta_request)
    ∷ (codes "list_data_request", list_data_request)
    ∷ (codes "create_buffer_request", create_buffer_request)
    ∷ (codes "get_buffers_request", get_buffers_request)
    ∷ (codes "create_stream_request", create_stream_request)
    ∷ (codes "get_next_stream_chunk_request", get_next_stream_chunk_request)
    ∷ (codes "pull_next_stream_chunk_request", pull_next_stream_chunk_request)
    ∷ (codes "stop_stream_request", stop_stream_request)
    ∷ (codes "put_name_request", put_name_request)
    ∷ (codes "get_name_request", get_name_request)
    ∷ (codes "drop_name_request", drop_name_request)
    ∷ (codes "if_persist_request", if_persist_request)
    ∷ (codes "instance_status_request", instance_status_request)
    ∷ (codes "shallow_copy_request", shallow_copy_request)
    ∷ []

unfoldable pub parse_from : List (Text × CommandType) → Text → CommandType
parse_from [] str_type = null_command
parse_from ((name, command) ∷ rest) str_type =
    let later = parse_from rest str_type in if text_eq str_type name then command else later

-- `ParseCommandType`
abbrev pub parse_command_type : Text → CommandType
parse_command_type = parse_from command_types

-- What a reader answers: its out-parameters, an error by its code, or an exception of `get`.
pub data Read {ℓ} (A : Type ℓ) : Type ℓ where
  result : A → Read A
  refused : ℕ → Read A
  thrown : Read A

infixl 5 ◌>>=◌ ◌>>◌
abbrev pub ◌>>=◌ {ℓ κ} : {A : Type ℓ} {B : Type κ} → Read A → (A → Read B) → Read B
result a >>= f = f a
refused code >>= f = refused code
thrown >>= f = thrown

abbrev pub ◌>>◌ {ℓ} : {B : Type ℓ} → Read (Unit {0}) → Read B → Read B
m >> k = m >>= λ _. k

-- `get<T>`, which throws where the optional is empty.
abbrev pub required {ℓ} : {A : Type ℓ} → Option A → Read A
required none = thrown
required (some a) = result a

-- `code()` of an error: those of the enumeration.
unfoldable pub code_of : Status → ℕ
code_of Status.ok = 0
code_of Status.invalid = 1
code_of Status.key_error = 2
code_of Status.type_error = 3
code_of Status.io_error = 4
code_of Status.end_of_file = 5
code_of Status.not_implemented = 6
code_of Status.assertion_failed = 7
code_of Status.object_exists = 11
code_of Status.object_not_exists = 12
code_of Status.object_sealed = 13
code_of Status.object_not_sealed = 14
code_of Status.meta_tree_invalid = 21
code_of Status.meta_tree_type_invalid = 22
code_of Status.meta_tree_type_not_exists = 23
code_of Status.meta_tree_name_invalid = 24
code_of Status.meta_tree_name_not_exists = 26
code_of Status.meta_tree_link_invalid = 27
code_of Status.meta_tree_subtree_not_exists = 28
code_of Status.vineyard_server_not_ready = 31
code_of Status.arrow_error = 32
code_of Status.connection_failed = 33
code_of Status.connection_error = 34
code_of Status.etcd_error = 35
code_of Status.not_enough_memory = 41
code_of Status.stream_drained = 42
code_of Status.stream_failed = 43
code_of Status.invalid_stream_state = 44
code_of Status.user_input_error = 51
code_of Status.unknown_error = 255

-- A call of `put` with a value that is written as text, or of `add_child`.
pub data Entry (P : Type 0) : Type 0 where
  field : Text → Text → Entry P
  member : Text → P → Entry P

-- The default is false.
abbrev pub is_true : Option Bool → Bool
is_true none = false
is_true (some b) = b

-- A code is an int, of which a `StatusCode` keeps the low byte. Negative codes, which no server
-- writes, count as no number.
abbrev pub check_code : Option ℕ → Read (Unit {0}) → Read (Unit {0})
check_code none otherwise = otherwise
check_code (some code) otherwise = if code % 256 == 0 then otherwise else refused (code % 256)

module _ (l : PtreeLibrary) where
  abbrev pub add_entry : Entry l.Ptree → l.Ptree → l.Ptree
  add_entry (field k v) t = l.put k v t
  add_entry (member k s) t = l.add_child k s t

  unfoldable pub add_entries : List (Entry l.Ptree) → l.Ptree → l.Ptree
  add_entries [] t = t
  add_entries (e ∷ es) t = add_entries es (add_entry e t)

  -- The tree that goes to `encode_msg`.
  abbrev pub message : List (Entry l.Ptree) → l.Ptree
  message es = add_entries es (empty_tree l)

  -- `get<std::string>`, and `get` into a number below the limit, a truth value, and a subtree.
  unfoldable pub get_string : Text → l.Ptree → Read Text
  get_string k root = required (get_text l k root)

  unfoldable pub get_number : ℕ → Text → l.Ptree → Read ℕ
  get_number limit k root = required (chain (get_text l k root) (l.to_number limit))

  unfoldable pub get_bool : Text → l.Ptree → Read Bool
  get_bool k root = required (chain (get_text l k root) l.to_bool)

  -- `get<bool>(k, false)`
  unfoldable pub get_flag : Text → l.Ptree → Read Bool
  get_flag k root = result (is_true (chain (get_text l k root) l.to_bool))

  unfoldable pub get_child : Text → l.Ptree → Read l.Ptree
  get_child k root = required (l.child k root)

  abbrev pub get_word : Text → l.Ptree → Read ℕ
  get_word = get_number (2 ^ 64)

  -- `RETURN_ON_ASSERT` on the type of the message.
  unfoldable pub expect_type : Text → l.Ptree → Read (Unit {0})
  expect_type type root = get_string (codes "type") root >>= λ found.
      if text_eq found type then result tt else refused (code_of Status.assertion_failed)

  -- `CHECK_IPC_ERROR`, with `get_optional<int>`.
  unfoldable pub check_ipc_error : Text → l.Ptree → Read (Unit {0})
  check_ipc_error type root =
      check_code (chain (get_text l (codes "code") root) (l.to_number (2 ^ 31)))
        (expect_type type root)

  -- `WriteErrorReply`, which writes what `Status::ToJSON` answers; a status that is ok has no message.
  unfoldable pub write_error_reply : Status → Text → l.Ptree
  write_error_reply status text = message (
      field (codes "code") (l.of_number (code_of status))
      ∷ (if is_ok status then [] else field (codes "message") text ∷ []))
