-- ===== src/Server/Sessions/Tests.antt =====
-- Messages, connections and pools that exist.
use libvineyard.Base.{
  is_empty, ℕ, ◌≡◌, refl, true, false, some, none, List, [], ◌∷◌, ◌++◌, map, arith, All,
}
use libvineyard.Base.Multimap.{member, insert}
use libvineyard.Common.Ptree.Concrete.{concrete, concrete_laws}
use libvineyard.Memory.BulkStore.{Payload}
use libvineyard.Server.Sessions.{Request, calls, deletes, gets_buffers, process_message}
use libvineyard.Server.Sessions.Dispatch.{write_request, process_message-write_request}
use libvineyard.Server.Sessions.Answers.{done, respond}
use libvineyard.Server.Sessions.Answers.Received.{read_response, expected, read_response-respond}
use libvineyard.Server.Sessions.Connection.{
  new_connection, do_write_then, enqueue, wrote, call_back, send_fds,
}
use libvineyard.Server.Sessions.Connection.Order.{
  Step, writes, writing_ends, pulls, run, messages, run-fifo,
}
use libvineyard.Server.Sessions.Connection.Descriptors.{
  times, descriptors_follow, descriptors_forgotten,
}

abbrev deletion : Request concrete.Ptree
deletion = deletes (3 ∷ 0x8000_0000_0000_0010 ∷ []) true false

process_message-write_request_example :
    process_message concrete [] (some (write_request concrete deletion)) ≡ calls deletion
process_message-write_request_example =
    process_message-write_request concrete_laws [] deletion (omega arith, (omega arith, tt))

abbrev buffers : Request concrete.Ptree
buffers = gets_buffers (5 ∷ [])

abbrev payloads : List Payload
payloads =
    record {
      object_id = 5;
      store_fd = 3;
      data_offset = 64;
      data_size = 100;
      map_size = 4096;
      pointer = 7;
    }
    ∷ []

read_response-respond_example :
    map (read_response concrete buffers) (respond concrete buffers (done payloads))
    ≡ expected concrete buffers (done payloads)
read_response-respond_example =
    read_response-respond concrete_laws buffers (done payloads)
      (omega arith, ((omega arith, omega arith, omega arith, omega arith, omega arith), tt))

abbrev steps : List (Step ℕ)
steps = writes none 1 ∷ writes (some (9 ∷ [])) 2 ∷ writing_ends ∷ pulls 4 ∷ []

run-fifo_example :
    (run steps new_connection).written ++ (run steps new_connection).write_msgs ≡ messages steps
run-fifo_example = run-fifo steps

-- The first reply with the descriptor 9 has been written and sent.
abbrev earlier : List (Step ℕ)
earlier = writes (some (9 ∷ [])) 0 ∷ writing_ends ∷ []

abbrev endings : List (Step ℕ)
endings = writes none 2 ∷ writing_ends ∷ writing_ends ∷ []

abbrev two_fds : List ℕ
two_fds = 9 ∷ 8 ∷ []

earlier_out : is_empty (run earlier new_connection).write_msgs ≡ true
unfolding run enqueue wrote call_back send_fds member
earlier_out = refl

all_out : (run endings (do_write_then 1 two_fds (run earlier new_connection))).write_msgs ≡ []
unfolding run enqueue wrote call_back send_fds member insert
all_out = refl

descriptors_follow_example :
    All
      (λ fd.
        times fd (run endings (do_write_then 1 two_fds (run earlier new_connection))).sent_fds ≡ 1)
      two_fds
descriptors_follow_example = descriptors_follow 1 two_fds earlier endings earlier_out all_out

abbrev busy : List (Step ℕ)
busy = writes none 1 ∷ []

is_busy : is_empty (run busy new_connection).write_msgs ≡ false
unfolding run enqueue
is_busy = refl

descriptors_forgotten_example :
    times 9 (run endings (do_write_then 2 (9 ∷ []) (run busy new_connection))).sent_fds ≡ 0
descriptors_forgotten_example = descriptors_forgotten 2 9 [] busy endings is_busy refl refl
