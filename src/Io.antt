-- ===== src/Io.antt =====
-- io: the readiness reports of a descriptor, and the operations that wait for them.
pub mod Registration
pub mod Async
