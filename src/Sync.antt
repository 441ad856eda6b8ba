-- ===== src/Sync.antt =====
-- sync/: waiter lists and the primitives that are built on them.
pub mod WaitList
pub mod Slots
pub mod Channel
pub mod Stream
pub mod Semaphore
pub mod Completion
pub mod Mailbox
pub mod WaitGroup
