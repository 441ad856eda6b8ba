-- ===== src/Sched.antt =====
-- sched/: the scheduler and its timers.
pub mod Idle
pub mod Join
pub mod LocalWork
pub mod Parker
pub mod Parking
pub mod SlotCache
pub mod TimerQueue
