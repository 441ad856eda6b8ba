-- ===== src/Queue.antt =====
-- queue/: the run queues of the workers.
pub mod Ring
