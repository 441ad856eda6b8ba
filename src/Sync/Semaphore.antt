-- ===== src/Sync/Semaphore.antt =====
-- sync/src/Semaphore.cpp and include/stackfull/sync/Semaphore.h, as a machine whose steps are the
-- single accesses to the semaphore's atomics, and the list work that its lock protects. A thread
-- is an index into `threads`, which hold the point where each stands. A spurious failure of a
-- weak compare-exchange repeats the access, and is no step.
mod Total
mod Invariant
mod Acquire
mod Release
mod Withdraw
mod Safety
mod Tests
use stackfull.Base.{
  ℕ, ◌+◌, ◌-◌, Bool, true, false, none, some, List, [], ◌∷◌, ◌++◌, ltb, ◌==◌, if◌then◌else◌,
  get_elem?, set, replicate,
}
use stackfull.Sync.WaitList.Cancel.{remove}
use stackfull.Sync.WaitList.Seg.{contains}
use stackfull.Sync.Slots.{add_size}

-- Where a thread stands: before which access of which operation.
pub data Point : Type 0 where
  idle : Point
  -- `acquire`, `acquireOrEnqueue`: the fast path, then the lock.
  first_try slow_lock : Point
  -- Under the lock: announce, try again, and give the announcement back or join the list.
  announce try_again retract join : Point
  -- In the list until a releaser sets `satisfied`.
  asleep : Point
  -- `release`: add, look at the count, lock.
  add look release_lock : Point
  -- Under the lock, with the waiters taken so far: take a permit for the next, count it out.
  hand_out count_out : List ℕ → Point
  -- The lock is free again: notify these.
  notify : List ℕ → Point
  -- `cancel` of a waiter: lock, unlink it, count it out.
  cancel_lock unlink : ℕ → Point
  cancel_count : Point
  -- A forced unwind out of the wait: lock, unlink oneself, count, or await the notifier.
  unwind_lock unwind_unlink unwind_count await_notifier : Point

-- The semaphore, its threads, and counters that only the theorems read: the acquisitions that
-- returned, the permits that `release` added, and those taken for a waiter that was unwound.
pub record Semaphore : Type 0 where
  pub permits : ℕ
  pub waiter_count : ℕ
  pub locked : Bool
  pub waiters : List ℕ
  pub satisfied : List ℕ
  pub cancelled : List ℕ
  pub threads : List Point
  pub acquired : ℕ
  pub released : ℕ
  pub lost : ℕ

-- Thread `t` goes to `p`, and nothing else changes.
abbrev pub go : Semaphore → ℕ → Point → Semaphore
go s t p = record s { threads = set s.threads t p }

-- `tryAcquire`: on to `yes_point` with a permit, or on to `no_point`.
abbrev pub try_acquire : Semaphore → ℕ → Point → Point → Semaphore
try_acquire s t yes_point no_point =
    if ltb 0 s.permits
    then go (record s { permits = s.permits - 1 }) t yes_point
    else go s t no_point

-- The lock is taken if it is free; if not, the thread spins.
abbrev pub take_lock : Semaphore → ℕ → Point → Semaphore
take_lock s t p = if s.locked then s else go (record s { locked = true }) t p

abbrev pub drop_lock : Semaphore → ℕ → Point → Semaphore
drop_lock s t p = go (record s { locked = false }) t p

abbrev pub count_down : Semaphore → Semaphore
count_down s = record s { waiter_count = s.waiter_count - 1 }

-- The fast path of `acquire`.
pub acquire_fast : Semaphore → ℕ → Semaphore
acquire_fast s t =
    if ltb 0 s.permits
    then go (record s { permits = s.permits - 1; acquired = s.acquired + 1 }) t idle
    else go s t slow_lock

-- `acquireSlow`, and `acquireOrEnqueue` behind its fast path, which refuses a cancelled waiter.
pub acquire_slow : Semaphore → ℕ → Point → Semaphore
acquire_slow s t slow_lock = take_lock s t announce
acquire_slow s t announce =
    if contains s.cancelled t
    then drop_lock s t idle
    else go (record s { waiter_count = s.waiter_count + 1 }) t try_again
acquire_slow s t try_again = try_acquire s t retract join
acquire_slow s t retract = drop_lock (count_down (record s { acquired = s.acquired + 1 })) t idle
acquire_slow s t join = drop_lock (record s { waiters = s.waiters ++ t ∷ [] }) t asleep
acquire_slow s t asleep =
    if contains s.satisfied t
    then go (record s { satisfied = remove s.satisfied t; acquired = s.acquired + 1 }) t idle
    else s
acquire_slow s t p = s

-- The loop of `release` under the lock: a permit for the first waiter, if there are both.
abbrev pub hand_out_next : Semaphore → ℕ → List ℕ → List ℕ → Semaphore
hand_out_next s t taken [] = drop_lock s t (notify taken)
hand_out_next s t taken (w ∷ ws) =
    if ltb 0 s.permits
    then go (record s { permits = s.permits - 1; waiters = ws }) t (count_out (taken ++ w ∷ []))
    else drop_lock s t (notify taken)

pub release : Semaphore → ℕ → Point → Semaphore
release s t add = go (record s { permits = add_size s.permits 1; released = s.released + 1 }) t look
release s t look = if s.waiter_count == 0 then go s t idle else go s t release_lock
release s t release_lock = take_lock s t (hand_out [])
release s t (hand_out taken) = hand_out_next s t taken s.waiters
release s t (count_out taken) = go (count_down s) t (hand_out taken)
release s t (notify []) = go s t idle
release s t (notify (w ∷ ws)) = go (record s { satisfied = w ∷ s.satisfied }) t (notify ws)
release s t p = s

pub cancel : Semaphore → ℕ → Point → Semaphore
cancel s t (cancel_lock w) = take_lock s t (unlink w)
cancel s t (unlink w) =
    if contains s.waiters w
    then go (record s { waiters = remove s.waiters w }) t cancel_count
    else drop_lock (record s { cancelled = w ∷ s.cancelled }) t idle
cancel s t cancel_count = drop_lock (count_down s) t idle
cancel s t p = s

-- `WaitGuard` around the wait of `acquireSlow`.
pub unwind : Semaphore → ℕ → Point → Semaphore
unwind s t unwind_lock = take_lock s t unwind_unlink
unwind s t unwind_unlink =
    if contains s.waiters t
    then go (record s { waiters = remove s.waiters t }) t unwind_count
    else drop_lock s t await_notifier
unwind s t unwind_count = drop_lock (count_down s) t idle
unwind s t await_notifier =
    if contains s.satisfied t
    then go (record s { satisfied = remove s.satisfied t; lost = s.lost + 1 }) t idle
    else s
unwind s t p = s

-- The next access of a thread at point `p`.
pub run_point : Semaphore → ℕ → Point → Semaphore
unfolding acquire_fast acquire_slow release cancel unwind
run_point s t idle = s
run_point s t first_try = acquire_fast s t
run_point s t add = release s t add
run_point s t look = release s t look
run_point s t release_lock = release s t release_lock
run_point s t (hand_out ws) = release s t (hand_out ws)
run_point s t (count_out ws) = release s t (count_out ws)
run_point s t (notify ws) = release s t (notify ws)
run_point s t (cancel_lock w) = cancel s t (cancel_lock w)
run_point s t (unlink w) = cancel s t (unlink w)
run_point s t cancel_count = cancel s t cancel_count
run_point s t unwind_lock = unwind s t unwind_lock
run_point s t unwind_unlink = unwind s t unwind_unlink
run_point s t unwind_count = unwind s t unwind_count
run_point s t await_notifier = unwind s t await_notifier
run_point s t p = acquire_slow s t p

-- What a schedule does next: thread `t` makes its next access, begins a call, or is unwound.
pub data Event : Type 0 where
  runs acquires releases unwinds : ℕ → Event
  cancels : ℕ → ℕ → Event

-- A call begins on an idle thread, an unwind on a sleeping one.
abbrev pub begin : Semaphore → ℕ → Point → Point → Semaphore
begin s t call idle = go s t call
begin s t call p = s

abbrev pub begin_unwind : Semaphore → ℕ → Point → Semaphore
begin_unwind s t asleep = go s t unwind_lock
begin_unwind s t p = s

abbrev pub at_point : Semaphore → ℕ → (Point → Semaphore) → Semaphore
at_point s t f = elim (get_elem? s.threads t) [ none ↦ s | some p ↦ f p ]

pub advance : Semaphore → Event → Semaphore
unfolding run_point
advance s (runs t) = at_point s t (run_point s t)
advance s (acquires t) = at_point s t (begin s t first_try)
advance s (releases t) = at_point s t (begin s t add)
advance s (cancels t w) = at_point s t (begin s t (cancel_lock w))
advance s (unwinds t) = at_point s t (begin_unwind s t)

pub history : Semaphore → List Event → Semaphore
history s [] = s
history s (e ∷ es) = history (advance s e) es

-- A semaphore with `n` permits and `k` idle threads.
pub init : ℕ → ℕ → Semaphore
init n k = record {
  permits = n;
  waiter_count = 0;
  locked = false;
  waiters = [];
  satisfied = [];
  cancelled = [];
  threads = replicate k idle;
  acquired = 0;
  released = 0;
  lost = 0;
}
