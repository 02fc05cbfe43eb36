-- ===== src/Threads.antt =====
-- LALI/base: the pool of threads.
pub mod Pool
