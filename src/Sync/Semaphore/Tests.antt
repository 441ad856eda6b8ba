-- ===== src/Sync/Semaphore/Tests.antt =====
-- Schedules of two and three threads, and the theorems at them.
use stackfull.Base.{
  ◌+◌, ◌^◌, ◌≤◌, ◌<◌, ◌≡◌, refl, ◌⊎◌, List, [], ◌∷◌, arith, if◌then◌else◌, length, sum_by,
}
use stackfull.Sync.Semaphore.{Event, advance, history, init}
use stackfull.Sync.Semaphore.Total.{announced, joining, inside, releasing, carried}
use stackfull.Sync.Semaphore.Safety.{permits_conserved, permit_reaches_waiter, lock_exclusive}

-- Thread 0 takes the one permit, thread 1 queues, thread 0 releases and hands over to thread 1.
abbrev hand_over : List Event
hand_over =
    Event.acquires 0
    ∷ Event.runs 0
    ∷ Event.acquires 1
    ∷ Event.runs 1
    ∷ Event.runs 1
    ∷ Event.runs 1
    ∷ Event.runs 1
    ∷ Event.runs 1
    ∷ Event.releases 0
    ∷ Event.runs 0
    ∷ Event.runs 0
    ∷ Event.runs 0
    ∷ Event.runs 0
    ∷ Event.runs 0
    ∷ Event.runs 0
    ∷ Event.runs 0
    ∷ Event.runs 0
    ∷ Event.runs 1
    ∷ []

handed_over :
    let s = history (init 1 2) hand_over in
    (s.acquired ≡ 2) × (s.released ≡ 1) × (s.permits ≡ 0) × (s.waiters ≡ []) × (s.waiter_count ≡ 0)
unfolding history advance init
handed_over = (refl, refl, refl, refl, refl)

few : 1 + (history (init 1 2) hand_over).released + 1 < 2 ^ 64
unfolding history advance init
few = omega arith

permits_conserved_example :
    let s = history (init 1 2) hand_over in
    (s.permits + sum_by carried s.threads + length s.satisfied + s.acquired + s.lost
      ≡ 1 + s.released)
    × (s.acquired ≤ 1 + s.released)
permits_conserved_example = permits_conserved 1 2 hand_over few

permit_reaches_waiter_example :
    let s = history (init 1 2) hand_over in
    (s.permits ≡ 0)
    ⊎ (length s.waiters + sum_by joining s.threads ≡ 0)
    ⊎ (0 < sum_by releasing s.threads)
permit_reaches_waiter_example = permit_reaches_waiter 1 2 hand_over few

lock_exclusive_example :
    let s = history (init 1 2) hand_over in
    (sum_by inside s.threads ≡ (if s.locked then 1 else 0))
    × (s.waiter_count ≡ length s.waiters + sum_by announced s.threads)
lock_exclusive_example = lock_exclusive 1 2 hand_over few
