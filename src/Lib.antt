-- ===== src/Lib.antt =====
-- A verification library for stackfull, a C++ library of stackful coroutines with a work-stealing
-- scheduler, synchronisation primitives, lock-free queues and asynchronous input and output.
--
-- The parts of the program, and the files that model them:
-- * sync/include/stackfull/sync/detail/Waiter.h, the intrusive list of waiters: Sync/WaitList. The
--   list works on a memory of waiters, as the code's pointers do: `push_back`, `pop_front`,
--   `unlink` and `cancel_waiter` are pushBack, popFront, unlink and cancelWaiter. The primitives
--   that keep such a list hold it as a plain list of addresses, which the refinement justifies.
-- * The ring of raw slots that Channel.h and Stream.h keep: Sync/Slots (`push_locked`,
--   `pop_locked`). Sizes wrap at 2^64; a ring has at most 2^63 slots.
-- * sync/include/stackfull/sync/Channel.h, the bounded channel: Sync/Channel. Each critical section
--   is one function; a blocking call is the sequence of its rounds, one function each, and
--   `unwind_send` and `unwind_recv` are its WaitGuard. The specification, a bounded queue, is
--   Sync/Channel/Spec; Sync/Channel/Watch keeps the notified waiters that are on their way back.
-- * sync/include/stackfull/sync/Stream.h, the stream that drops: Sync/Stream, likewise.
-- * sync/include/stackfull/sync/Completion.h, the one-shot result: Sync/Completion, a machine whose
--   steps are the accesses and critical sections of any number of producers and of the one consumer
--   in `get` or `getUntil`.
-- * sync/include/stackfull/sync/Mailbox.h, the queue of closures: Sync/Mailbox, likewise a machine, of
--   any number of parties that post and close and of the one consumer.
-- * sync/src/WaitGroup.cpp, the counter that parties wait for: Sync/WaitGroup, a machine of single
--   accesses and critical sections, as the semaphore is.
-- * sync/src/Semaphore.cpp, the counting semaphore, which Mutex.h is with one permit:
--   Sync/Semaphore, a machine whose steps are the single accesses to the atomics, for any number of
--   threads and any schedule.
-- * queue/include/stackfull/queue/RingQueue.h, the run queue of the reference scheduler: Queue/Ring,
--   a machine whose steps are the accesses of the owner and of any number of thieves.
-- * sched/src/TimerQueue.cpp, the heap of deadlines of one worker: Sched/TimerQueue. Entries are
--   addresses, and each field of TimerEntry is a function of them; Order and Sift and Down carry
--   the heap, Insert and Calls the operations, Fire and Close the loops that fire entries.
-- * Parking and waking a task: Sched/Parking, a machine of one task and its slot, whose steps are the
--   accesses of the task in park (sched/include/stackfull/sched/ThisTask.h), of the hooks and wake
--   (sched/include/stackfull/sched/detail/Runtime.h), of a token's wake (sched/src/WakeToken.cpp), of
--   reapParkedTasks (sched/src/Worker.cpp) and of releaseTask (sched/src/SchedulerCore.cpp), for any
--   number of threads. Weight and Invariant carry it, Task and Threads the steps, and Carry and
--   Progress a woken task's way back to a worker.
-- * What a worker runs next, and where a task goes: Sched/LocalWork, of Runtime.h and Worker.cpp. The
--   run queue is the interface `LocalQueue`, with the laws `IsFifo`.
-- * How injected tasks find a worker, in sched/src/SchedulerCore.cpp and sched/src/Worker.cpp:
--   Sched/Idle, a machine of the workers and of the parties that inject, in a scheduler without a
--   Driver; Awake carries the invariant.
-- * sched/src/JoinHandle.cpp and finishJoin in sched/src/SchedulerCore.cpp: Sched/Join, a machine of
--   the finishing task and the owner of the handle.
-- * The free slots and their caches, tryAcquireSlot and releaseSlot in sched/src/SchedulerCore.cpp:
--   Sched/SlotCache, a machine of any number of parties.
-- * sched/src/Parker.cpp, the parker on a futex: Sched/Parker, a machine of the thread that parks and of
--   those that unpark it.
-- * stack/src/PooledStackAllocator.cpp, the path of a stack that is given back: Stack/Pool. The
--   shared queue and the upstream allocator are the parameter `Backing`, with the laws
--   `IsConserving`; `deallocate` is that function, Classes and Conserve carry the thread cache.
-- * stack/src/MmapStackAllocator.cpp, stacks from the operating system: Stack/Mmap. What is mapped
--   is a function of the address; where mmap places a range, and whether mprotect succeeds, is the
--   parameter `Kernel`, with the law `IsFair`.
-- * io/src/Registration.cpp and io/include/stackfull/io/Registration.h, the readiness reports of a
--   descriptor: Io/Registration, and waitFor as a machine among reports: Io/Registration/Wait.
-- * io/src/Async.cpp and io/include/stackfull/io/Async.h, the transfers that wait: Io/Async, with
--   the retries in Retry, and accepting and connecting in Accept and Connect. The system calls and
--   what a wait brings are the parameter `World`.
--
-- Parts call each other through waiters: the primitives notify waiters, which the scheduler wakes.
-- The functions of the primitives return whom they notify, and in their machines a wake is a flag that
-- a blocked party consumes, which is what Sched/Parking makes of a task's park and its wake, and
-- Sched/Parker of a thread's. Sched/Parking counts the places in run queues that hold the task;
-- Sched/LocalWork has the queues. The operations of Io/Async read the
-- event count and the hints of Io/Registration, and wait there.
--
-- Fuel: `sift_up` takes the index, which at least halves at each turn; `sift_down` and `fire_rounds`
-- take the size of the heap, which bounds the depth and the number of entries; the scans of
-- `fire_callbacks_and_close` take the size as well; `give_to_shared` makes the code's eight tries.
-- The loops of Io/Async take fuel for the interruptions and waits to come, which the system bounds,
-- and for the bytes, of which each turn moves one at least.
--
-- Memory is sequentially consistent. Spin locks exclude: what one protects is one step, but in the
-- semaphore, where the lock is a flag of the machine. Not modelled: the Driver and the timekeeper's
-- sleep in it, stealing, the workers' loop, start and shutdown, the coroutine switch and its assembly,
-- allocation from the pooled stack allocator, the block-based queues, the pollers and sockets, the
-- sender adaptors, and the remaining primitives of sync/.
pub mod Base
pub mod Io
pub mod Queue
pub mod Sched
pub mod Stack
pub mod Sync
