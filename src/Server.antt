-- ===== src/Server.antt =====
-- src/server/server/vineyard_server.cc: how the server starts, which requests wait, and what it does
-- to the blob store when metadata goes.
pub mod Startup
pub mod Deferred
pub mod Cleanup
pub mod Names
pub mod Data
pub mod Sessions
pub mod Tests
