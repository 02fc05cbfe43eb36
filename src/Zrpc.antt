-- ===== src/Zrpc.antt =====
-- LALI/zrpc: the JSON-RPC server and client.
pub mod Json
pub mod Sample
pub mod Thrown
pub mod Procedure
pub mod Header
pub mod Server
pub mod Client
pub mod Done
pub mod Stub
