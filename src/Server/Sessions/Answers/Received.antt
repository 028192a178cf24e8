-- ===== src/Server/Sessions/Answers/Received.antt =====
-- How a client reads the answers to its requests.
use libvineyard.Base.{
  ℕ, ◌<◌, ◌^◌, ◌≡◌, refl, ap, Bool, true, false, List, [], ◌∷◌, map, Text, length, All,
  if◌then◌else◌,
}
use libvineyard.Base.Table.{Table}
use libvineyard.Common.Status.{Status, is_ok}
use libvineyard.Common.Ptree.{PtreeLibrary, PtreeLaws}
use libvineyard.Common.Protocols.{Read, result, refused, write_error_reply, code_of}
use libvineyard.Common.Protocols.Replies.{
  emplace_objects, read_cluster_meta_reply, read_create_buffer_reply, read_create_data_reply,
  read_create_stream_reply, read_del_data_reply, read_drop_name_reply, read_exists_reply,
  read_get_buffers_reply, read_get_data_replies, read_get_name_reply,
  read_get_next_stream_chunk_reply, read_if_persist_reply, read_instance_status_reply,
  read_persist_reply, read_pull_next_stream_chunk_reply, read_put_name_reply, read_register_reply,
  read_shallow_copy_reply, read_stop_stream_reply,
}
use libvineyard.Common.Protocols.Replies.RoundTrip.{
  PayloadFits, seen_payload, emplace_payloads, check_ipc_error-write_error_reply,
  cluster_meta_reply_roundtrip, create_buffer_reply_roundtrip, create_data_reply_roundtrip,
  create_stream_reply_roundtrip, del_data_reply_roundtrip, drop_name_reply_roundtrip,
  exists_reply_roundtrip, get_data_replies_roundtrip, get_name_reply_roundtrip,
  get_next_stream_chunk_reply_roundtrip, if_persist_reply_roundtrip,
  instance_status_reply_roundtrip, persist_reply_roundtrip, pull_next_stream_chunk_reply_roundtrip,
  put_name_reply_roundtrip, register_reply_roundtrip, shallow_copy_reply_roundtrip,
  stop_stream_reply_roundtrip,
}
use libvineyard.Common.Protocols.Replies.Buffers.{get_buffers_reply_roundtrip}
use libvineyard.Memory.BulkStore.{Payload}
use libvineyard.Server.Sessions.{
  Request, registers, gets_buffers, creates_buffer, gets_data, lists_data, creates_data, persists,
  asks_persist, asks_exists, copies, deletes, creates_stream, gets_chunk, pulls_chunk, stops_stream,
  puts_name, gets_name, drops_name, asks_cluster, asks_instance,
}
use libvineyard.Server.Sessions.Answers.{
  Response, Outcome, done, failed, lost, write_response, respond,
}

-- What a client makes of a reply.
abbrev pub Received : {P : Type 0} → Request P → Type 0
Received {P} registers = Text × Text × ℕ
Received {P} (gets_buffers _) = Table Payload
Received {P} (creates_buffer _) = ℕ × Payload
Received {P} (gets_data _ _ _) = Table P
Received {P} (lists_data _ _ _) = Table P
Received {P} (creates_data _) = ℕ × ℕ
Received {P} (persists _) = Unit {0}
Received {P} (asks_persist _) = Bool
Received {P} (asks_exists _) = Bool
Received {P} (copies _) = ℕ
Received {P} (deletes _ _ _) = Unit {0}
Received {P} (creates_stream _) = Unit {0}
Received {P} (gets_chunk _ _) = Payload
Received {P} (pulls_chunk _) = Payload
Received {P} (stops_stream _ _) = Unit {0}
Received {P} (puts_name _ _) = Unit {0}
Received {P} (gets_name _ _) = ℕ
Received {P} (drops_name _) = Unit {0}
Received {P} asks_cluster = P
Received {P} asks_instance = P

module _ (l : PtreeLibrary) where
  -- The reader that a client uses for the reply to its request.
  abbrev pub read_response : (r : Request l.Ptree) → l.Ptree → Read (Received r)
  read_response registers = read_register_reply l
  read_response (gets_buffers _) = read_get_buffers_reply l
  read_response (creates_buffer _) = read_create_buffer_reply l
  read_response (gets_data _ _ _) = read_get_data_replies l
  read_response (lists_data _ _ _) = read_get_data_replies l
  read_response (creates_data _) = read_create_data_reply l
  read_response (persists _) = read_persist_reply l
  read_response (asks_persist _) = read_if_persist_reply l
  read_response (asks_exists _) = read_exists_reply l
  read_response (copies _) = read_shallow_copy_reply l
  read_response (deletes _ _ _) = read_del_data_reply l
  read_response (creates_stream _) = read_create_stream_reply l
  read_response (gets_chunk _ _) = read_get_next_stream_chunk_reply l
  read_response (pulls_chunk _) = read_pull_next_stream_chunk_reply l
  read_response (stops_stream _ _) = read_stop_stream_reply l
  read_response (puts_name _ _) = read_put_name_reply l
  read_response (gets_name _ _) = read_get_name_reply l
  read_response (drops_name _) = read_drop_name_reply l
  read_response asks_cluster = read_cluster_meta_reply l
  read_response asks_instance = read_instance_status_reply l

  -- Payloads arrive without the pointer, and objects by their ids.
  abbrev pub received : (r : Request l.Ptree) → Response r → Received r
  received registers v = v
  received (gets_buffers _) v = emplace_payloads v []
  received (creates_buffer _) v = (v.0, seen_payload v.1)
  received (gets_data _ _ _) v = emplace_objects l (l.children v) []
  received (lists_data _ _ _) v = emplace_objects l (l.children v) []
  received (creates_data _) v = v
  received (persists _) v = tt
  received (asks_persist _) v = v
  received (asks_exists _) v = v
  received (copies _) v = v
  received (deletes _ _ _) v = tt
  received (creates_stream _) v = tt
  received (gets_chunk _ _) v = seen_payload v
  received (pulls_chunk _) v = seen_payload v
  received (stops_stream _ _) v = tt
  received (puts_name _ _) v = tt
  received (gets_name _ _) v = v
  received (drops_name _) v = tt
  received asks_cluster v = v
  received asks_instance v = v

  -- What a client reads of an outcome.
  abbrev pub expected : (r : Request l.Ptree) → Outcome (Response r) → List (Read (Received r))
  expected r (done v) = result (received r v) ∷ []
  expected r (failed status text) = refused (code_of status) ∷ []
  expected r (lost waited status text) = if waited then [] else refused (code_of status) ∷ []

-- The numbers of a response fit their types.
abbrev pub ResponseFits : {P : Type 0} (r : Request P) → Response r → Type 0
ResponseFits registers v = v.2 < 2 ^ 64
ResponseFits (gets_buffers _) v = (length v < 2 ^ 64) × All PayloadFits v
ResponseFits (creates_buffer _) v = (v.0 < 2 ^ 64) × PayloadFits v.1
ResponseFits (gets_data _ _ _) v = Unit
ResponseFits (lists_data _ _ _) v = Unit
ResponseFits (creates_data _) v = (v.0 < 2 ^ 64) × (v.1 < 2 ^ 64)
ResponseFits (persists _) v = Unit
ResponseFits (asks_persist _) v = Unit
ResponseFits (asks_exists _) v = Unit
ResponseFits (copies _) v = v < 2 ^ 64
ResponseFits (deletes _ _ _) v = Unit
ResponseFits (creates_stream _) v = Unit
ResponseFits (gets_chunk _ _) v = PayloadFits v
ResponseFits (pulls_chunk _) v = PayloadFits v
ResponseFits (stops_stream _ _) v = Unit
ResponseFits (puts_name _ _) v = Unit
ResponseFits (gets_name _ _) v = v < 2 ^ 64
ResponseFits (drops_name _) v = Unit
ResponseFits asks_cluster v = Unit
ResponseFits asks_instance v = Unit

abbrev OutcomeFits : {P : Type 0} (r : Request P) → Outcome (Response r) → Type 0
OutcomeFits r (done v) = ResponseFits r v
OutcomeFits r (failed status text) = is_ok status ≡ false
OutcomeFits r (lost waited status text) = is_ok status ≡ false

module _ {l : PtreeLibrary} (w : PtreeLaws l) where
  read_response-write_response :
      (r : Request l.Ptree) (v : Response r)
      → ResponseFits r v
      → read_response l r (write_response l r v) ≡ result (received l r v)
  unfolding write_response
  read_response-write_response registers v h = register_reply_roundtrip w v.0 v.1 v.2 h
  read_response-write_response (gets_buffers _) v h = get_buffers_reply_roundtrip w v h.0 h.1
  read_response-write_response (creates_buffer _) v h =
      create_buffer_reply_roundtrip w v.0 v.1 h.0 h.1
  read_response-write_response (gets_data _ _ _) v h = get_data_replies_roundtrip w v
  read_response-write_response (lists_data _ _ _) v h = get_data_replies_roundtrip w v
  read_response-write_response (creates_data _) v h = create_data_reply_roundtrip w v.0 v.1 h.0 h.1
  read_response-write_response (persists _) v h = persist_reply_roundtrip w
  read_response-write_response (asks_persist _) v h = if_persist_reply_roundtrip w v
  read_response-write_response (asks_exists _) v h = exists_reply_roundtrip w v
  read_response-write_response (copies _) v h = shallow_copy_reply_roundtrip w v h
  read_response-write_response (deletes _ _ _) v h = del_data_reply_roundtrip w
  read_response-write_response (creates_stream _) v h = create_stream_reply_roundtrip w
  read_response-write_response (gets_chunk _ _) v h = get_next_stream_chunk_reply_roundtrip w v h
  read_response-write_response (pulls_chunk _) v h = pull_next_stream_chunk_reply_roundtrip w v h
  read_response-write_response (stops_stream _ _) v h = stop_stream_reply_roundtrip w
  read_response-write_response (puts_name _ _) v h = put_name_reply_roundtrip w
  read_response-write_response (gets_name _ _) v h = get_name_reply_roundtrip w v h
  read_response-write_response (drops_name _) v h = drop_name_reply_roundtrip w
  read_response-write_response asks_cluster v h = cluster_meta_reply_roundtrip w v
  read_response-write_response asks_instance v h = instance_status_reply_roundtrip w v

  -- An error's reply is refused with the error's code by the reader for any request.
  read_response-write_error_reply :
      (r : Request l.Ptree) (status : Status) (text : Text)
      → is_ok status ≡ false
      → read_response l r (write_error_reply l status text) ≡ refused (code_of status)
  unfolding read_cluster_meta_reply read_create_buffer_reply read_create_data_reply
      read_create_stream_reply read_del_data_reply read_drop_name_reply read_exists_reply
      read_get_buffers_reply read_get_data_replies read_get_name_reply
      read_get_next_stream_chunk_reply read_if_persist_reply read_instance_status_reply
      read_persist_reply read_pull_next_stream_chunk_reply read_put_name_reply read_register_reply
      read_shallow_copy_reply read_stop_stream_reply
  read_response-write_error_reply registers status text h =
      rw (check_ipc_error-write_error_reply w status text _ h)
  read_response-write_error_reply (gets_buffers _) status text h =
      rw (check_ipc_error-write_error_reply w status text _ h)
  read_response-write_error_reply (creates_buffer _) status text h =
      rw (check_ipc_error-write_error_reply w status text _ h)
  read_response-write_error_reply (gets_data _ _ _) status text h =
      rw (check_ipc_error-write_error_reply w status text _ h)
  read_response-write_error_reply (lists_data _ _ _) status text h =
      rw (check_ipc_error-write_error_reply w status text _ h)
  read_response-write_error_reply (creates_data _) status text h =
      rw (check_ipc_error-write_error_reply w status text _ h)
  read_response-write_error_reply (persists _) status text h =
      rw (check_ipc_error-write_error_reply w status text _ h)
  read_response-write_error_reply (asks_persist _) status text h =
      rw (check_ipc_error-write_error_reply w status text _ h)
  read_response-write_error_reply (asks_exists _) status text h =
      rw (check_ipc_error-write_error_reply w status text _ h)
  read_response-write_error_reply (copies _) status text h =
      rw (check_ipc_error-write_error_reply w status text _ h)
  read_response-write_error_reply (deletes _ _ _) status text h =
      rw (check_ipc_error-write_error_reply w status text _ h)
  read_response-write_error_reply (creates_stream _) status text h =
      rw (check_ipc_error-write_error_reply w status text _ h)
  read_response-write_error_reply (gets_chunk _ _) status text h =
      rw (check_ipc_error-write_error_reply w status text _ h)
  read_response-write_error_reply (pulls_chunk _) status text h =
      rw (check_ipc_error-write_error_reply w status text _ h)
  read_response-write_error_reply (stops_stream _ _) status text h =
      rw (check_ipc_error-write_error_reply w status text _ h)
  read_response-write_error_reply (puts_name _ _) status text h =
      rw (check_ipc_error-write_error_reply w status text _ h)
  read_response-write_error_reply (gets_name _ _) status text h =
      rw (check_ipc_error-write_error_reply w status text _ h)
  read_response-write_error_reply (drops_name _) status text h =
      rw (check_ipc_error-write_error_reply w status text _ h)
  read_response-write_error_reply asks_cluster status text h =
      rw (check_ipc_error-write_error_reply w status text _ h)
  read_response-write_error_reply asks_instance status text h =
      rw (check_ipc_error-write_error_reply w status text _ h)

  -- Whatever comes of a request whose numbers fit, its client reads exactly that from the replies: the
  -- values on success and the code of an error, and nothing where a waiting request's chunk is gone.
  pub read_response-respond :
      (r : Request l.Ptree) (o : Outcome (Response r))
      → OutcomeFits r o
      → map (read_response l r) (respond l r o) ≡ expected l r o
  unfolding respond
  read_response-respond r (done v) h = ap (λ x. x ∷ []) (read_response-write_response r v h)
  read_response-respond r (failed status text) h =
      ap (λ x. x ∷ []) (read_response-write_error_reply r status text h)
  read_response-respond r (lost true status text) h = refl
  read_response-respond r (lost false status text) h =
      ap (λ x. x ∷ []) (read_response-write_error_reply r status text h)
