-- ===== src/Common.antt =====
-- src/common/util: what the server and the clients share.
pub mod Uuid
pub mod Status
pub mod BlockingQueue
pub mod Ptree
pub mod Protocols
