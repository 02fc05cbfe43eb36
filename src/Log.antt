-- ===== src/Log.antt =====
-- LALI/base: log streams, the asynchronous log and log files.
pub mod Stream
pub mod Async
pub mod File
