-- ===== src/Common/Status.antt =====
-- src/common/util/status.h: the codes of a `Status`. The messages are left out.
use libvineyard.Base.{Bool, true, false}

pub data Status : Type 0 where
  ok invalid key_error type_error io_error end_of_file not_implemented assertion_failed : Status
  object_exists object_not_exists object_sealed object_not_sealed : Status
  meta_tree_invalid meta_tree_type_invalid meta_tree_type_not_exists : Status
  meta_tree_name_invalid meta_tree_name_not_exists meta_tree_link_invalid : Status
  meta_tree_subtree_not_exists vineyard_server_not_ready arrow_error : Status
  connection_failed connection_error etcd_error not_enough_memory : Status
  stream_drained stream_failed invalid_stream_state user_input_error unknown_error : Status

-- `Status::ok`
abbrev pub is_ok : Status → Bool
is_ok ok = true
is_ok _ = false

-- `Status::IsMetaTreeSubtreeNotExists`
abbrev pub is_subtree_not_exists : Status → Bool
is_subtree_not_exists meta_tree_subtree_not_exists = true
is_subtree_not_exists _ = false
