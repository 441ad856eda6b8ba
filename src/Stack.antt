-- ===== src/Stack.antt =====
-- stack/: the allocators of coroutine stacks.
pub mod Pool
pub mod Mmap
