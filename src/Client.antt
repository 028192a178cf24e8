-- ===== src/Client.antt =====
-- src/client: the side of a client.
pub mod Io
pub mod Tests
