-- ===== src/Remote.antt =====
-- The server for a remote client: mizl_core/src/remote/gdb_server.rs.
pub mod Packet
