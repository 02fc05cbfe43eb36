-- ===== src/Zrpc/Stub.antt =====
-- LALI/zrpc/stub: the generators of C++ client and server stubs from a JSON description.
pub mod Replace
pub mod Template
pub mod Generator
pub mod Counts
pub mod ClientStub
pub mod ServiceTemplates
pub mod ServiceStub
mod Tests
