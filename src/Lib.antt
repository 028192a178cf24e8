-- ===== src/Lib.antt =====
-- libvineyard: the server of an in-memory store for immutable objects. One vineyardd process per
-- host keeps blobs in shared memory and hands them to its clients; the metadata of all objects is a
-- tree, of which every server has a copy, kept equal by a log of edits in etcd.
--
-- The parts, and the files that model them (paths from the repository's root):
--   Base            shared by all: lists, 64-bit words, bit masks, and tables, sets and multimaps of
--                   numbers.
--   Common          src/common/util: Common.Uuid for uuid.h and uuid.cc (object ids and their text),
--                   Common.Status for the codes of status.h, Common.BlockingQueue for
--                   blocking_queue.h (monitors: a step under the lock, or a wait), Common.Protocols for
--                   protocols.cc, with src/common/memory/payload.cc (the messages between client and
--                   server), and Common.Ptree for the interface of boost::property_tree that these and
--                   the metadata functions use.
--   Memory          src/server/memory: Memory.Malloc for malloc.cc, Memory.Allocator for
--                   allocator.cc (the footprint and its limit), Memory.BulkStore for memory.cc (the
--                   blobs: PreAllocate and the create, get and delete requests).
--   Streams         src/server/memory/stream_store.cc: a stream between one producer and one
--                   consumer. The calls on one stream are get_on, pull_on, stop_on and drop_on of
--                   Streams.Calls, those on the table of streams get, pull, stop and drop.
--   Meta            src/server/services: Meta.Dependencies for meta_service.cc (which object is a member
--                   of which, and what a deletion deletes), Meta.Service for meta_service.h (the edits
--                   that a server applies to its copy of the tree, the watch of the log, the requests,
--                   Meta.Service.Heartbeat for how servers join and watch each other) and, in
--                   Meta.Service.Etcd, for etcd_meta_service.cc; Meta.Links for the text helpers of
--                   src/server/util/meta_tree.cc, Meta.Tree for its functions on the tree (reading and
--                   listing objects, and the edits that create, update, persist, copy and delete
--                   them); Meta.Paths for the text functions that these use.
--   Server          Server.Sessions for src/server/async (a connection's requests and replies, its queue
--                   of messages and its descriptors, and the pool of connections); and
--                   src/server/server/vineyard_server.cc: Server.Startup for the ready bits, Server.Deferred
--                   for the requests that wait, Server.Names for named objects, Server.Data for the
--                   requests on objects, Server.Cleanup for the deletion of blobs.
--   Client          src/client/io.cc: connecting to a server, sending and receiving messages.
--   Graph           modules/graph/fragment: Graph.IdParser for property_graph_utils.h (IdParser packs a
--                   fragment, a label and an offset into one vertex id), Graph.Schema for
--                   graph_schema.cc (the labels and properties of a property graph).
--
-- How they meet: a client writes a request with Common.Protocols and sends it with Client.Io; a
-- session takes it from the bytes that arrive, calls the server's operation, and queues the reply. A
-- stream store allocates its chunks by the create requests of the blob store and deletes them by its
-- delete requests; a blob store draws on the allocator, which draws on dlmalloc. A request that
-- changes metadata makes edits, which the metadata service applies to its copy of the tree and commits
-- to etcd, from where they reach the other servers. An edit that removes a blob's metadata has the
-- server delete the blob from the store, and after every update the deferred requests are tried again.
--
-- State is passed explicitly: an operation takes the state and returns the new one with its result.
-- A C++ exception, a Status and an out parameter become a sum type or a pair with the status. A
-- callback is a number that stands for it, and what it is called with is a reply in a list.
-- `size_t` and `uint64_t` wrap at 2 ^ 64, an `int64_t` counter is its bit pattern.
--
-- Parameters: dlmalloc and its memory-mapped files (the record Malloc of Memory.Malloc, with the
-- documented contract of malloc, IsMalloc, as hypotheses), boost::property_tree (TreeLibrary
-- of Meta.Service; PtreeLibrary of Common.Ptree with its documented behaviour PtreeLaws, which the
-- list model of Common.Ptree.Concrete satisfies), the text of JSON, regular expressions and fnmatch,
-- lexical_cast of numbers, what the kernel answers to write, read and connect, what etcd answers
-- (Answers of Meta.Service.Requests), whether sockets can be opened, and the time stamp counter. The
-- loops of threads on a condition variable are steps of a relation.
-- A deletion recurses with fuel: the number of objects times the height of their ranks is proved to be
-- enough. count_bits has fuel for the 31 bits of an int, watch_batches for as many batches as edits.
-- Reading an object has fuel for the depth of its links: one more than a rank that goes down along
-- links is proved to be enough. read_messages has fuel for the number of messages.
--
-- Not modelled: DelData of meta_tree.cc (nothing calls it), the overloads of the protocol for a single
-- id, opening the servers' sockets, how a session passes the server's answers to its replies (they are
-- arguments), the classes of the clients, the Python bindings, the graph and data-structure modules but
-- for IdParser (whose num_to_bitwidth is given no negative int) and the schema without its JSON,
-- logging, and the text of error messages.
pub mod Base
pub mod Common
pub mod Memory
pub mod Streams
pub mod Meta
pub mod Graph
pub mod Server
pub mod Client
