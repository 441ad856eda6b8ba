-- ===== src/Sync/Semaphore/Safety.antt =====
-- What holds after any schedule of any calls.
use stackfull.Base.{
  ℕ, ◌+◌, ◌^◌, ◌≤◌, ◌<◌, ◌≡◌, refl, ◌⊎◌, Option, none, some, List, [], ◌∷◌, arith, if◌then◌else◌,
  length, get_elem?, sum_by, sum_by-replicate,
}
use stackfull.Sync.Semaphore.{
  hand_out_next, Semaphore, Point, Event, run_point, begin, begin_unwind, at_point, advance,
  history, init,
}
use stackfull.Sync.Semaphore.Total.{announced, joining, inside, releasing, carried}
use stackfull.Sync.Semaphore.Invariant.{Inv, moved}
use stackfull.Sync.Semaphore.Acquire
use stackfull.Sync.Semaphore.Release
use stackfull.Sync.Semaphore.Withdraw

-- A point where a thread holds neither the lock nor a permit, and nobody counts on it.
record IsOutside (p : Point) : Type 0 where
  unannounced : announced p ≡ 0
  no_lock : inside p ≡ 0
  not_joining : joining p ≡ 0
  not_releasing : releasing p ≡ 0
  empty_handed : carried p ≡ 0

begin-Inv :
    (n : ℕ) (s : Semaphore) (t : ℕ) (call p : Point)
    → IsOutside call
    → Inv n s
    → get_elem? s.threads t ≡ some p
    → Inv n (begin s t call p)
begin-Inv n s t call Point.idle out h e = ground (arith, moved s t Point.idle call e)
begin-Inv n s t call p out h e = h

begin_unwind-Inv :
    (n : ℕ) (s : Semaphore) (t : ℕ) (p : Point)
    → Inv n s
    → get_elem? s.threads t ≡ some p
    → Inv n (begin_unwind s t p)
begin_unwind-Inv n s t Point.asleep h e = ground (arith, moved s t Point.asleep Point.unwind_lock e)
begin_unwind-Inv n s t p h e = h

run_point-Inv :
    (n : ℕ) (s : Semaphore) (t : ℕ) (p : Point)
    → n + s.released + 1 < 2 ^ 64
    → Inv n s
    → get_elem? s.threads t ≡ some p
    → Inv n (run_point s t p)
unfolding run_point
run_point-Inv n s t Point.idle b h e = h
run_point-Inv n s t Point.first_try b h e = Acquire.acquire_fast-Inv n s t h e
run_point-Inv n s t Point.slow_lock b h e = Acquire.slow_lock-Inv n s t h e
run_point-Inv n s t Point.announce b h e = Acquire.announce-Inv n s t h e
run_point-Inv n s t Point.try_again b h e = Acquire.try_again-Inv n s t h e
run_point-Inv n s t Point.retract b h e = Acquire.retract-Inv n s t h e
run_point-Inv n s t Point.join b h e = Acquire.join-Inv n s t h e
run_point-Inv n s t Point.asleep b h e = Acquire.asleep-Inv n s t h e
run_point-Inv n s t Point.add b h e = Release.add-Inv n s t h e b
run_point-Inv n s t Point.look b h e = Release.look-Inv n s t h e
run_point-Inv n s t Point.release_lock b h e = Release.release_lock-Inv n s t h e
run_point-Inv n s t (Point.hand_out ws) b h e = Release.hand_out-Inv n s t h ws e
run_point-Inv n s t (Point.count_out ws) b h e = Release.count_out-Inv n s t h ws e
run_point-Inv n s t (Point.notify []) b h e = Release.notify_nil-Inv n s t h e
run_point-Inv n s t (Point.notify (w ∷ ws)) b h e = Release.notify_cons-Inv n s t h w ws e
run_point-Inv n s t (Point.cancel_lock w) b h e = Withdraw.cancel_lock-Inv n s t h w e
run_point-Inv n s t (Point.unlink w) b h e = Withdraw.unlink-Inv n s t h w e
run_point-Inv n s t Point.cancel_count b h e = Withdraw.cancel_count-Inv n s t h e
run_point-Inv n s t Point.unwind_lock b h e = Withdraw.unwind_lock-Inv n s t h e
run_point-Inv n s t Point.unwind_unlink b h e = Withdraw.unwind_unlink-Inv n s t h e
run_point-Inv n s t Point.unwind_count b h e = Withdraw.unwind_count-Inv n s t h e
run_point-Inv n s t Point.await_notifier b h e = Withdraw.await_notifier-Inv n s t h e

at_point-Inv :
    (n : ℕ) (s : Semaphore) (t : ℕ) (f : Point → Semaphore)
    → Inv n s
    → ((p : Point) → get_elem? s.threads t ≡ some p → Inv n (f p))
    → Inv n (at_point s t f)
at_point-Inv n s t f h step = go (get_elem? s.threads t) refl
  where
    go : (o : Option Point) → get_elem? s.threads t ≡ o → Inv n (elim o [ none ↦ s | some p ↦ f p ])
    go none e = h
    go (some p) e = step p e

outside :
    IsOutside Point.first_try × IsOutside Point.add × ((w : ℕ) → IsOutside (Point.cancel_lock w))
outside = (omega arith, omega arith, λ w. omega arith)

advance-Inv :
    (n : ℕ) (s : Semaphore) (e : Event)
    → n + s.released + 1 < 2 ^ 64
    → Inv n s
    → Inv n (advance s e)
unfolding advance
advance-Inv n s (Event.runs t) b h = at_point-Inv n s t _ h (λ p. run_point-Inv n s t p b h)
advance-Inv n s (Event.acquires t) b h =
    at_point-Inv n s t _ h (λ p. begin-Inv n s t Point.first_try p outside.0 h)
advance-Inv n s (Event.releases t) b h =
    at_point-Inv n s t _ h (λ p. begin-Inv n s t Point.add p outside.1 h)
advance-Inv n s (Event.cancels t w) b h =
    at_point-Inv n s t _ h (λ p. begin-Inv n s t (Point.cancel_lock w) p (outside.2 w) h)
advance-Inv n s (Event.unwinds t) b h = at_point-Inv n s t _ h (λ p. begin_unwind-Inv n s t p h)

-- `released` only grows.
run_point_grows : (s : Semaphore) (t : ℕ) (p : Point) → s.released ≤ (run_point s t p).released
unfolding run_point
run_point_grows s t Point.idle = omega arith
run_point_grows s t (Point.hand_out ws) = hand_out_grows s.waiters
  where
    hand_out_grows : (l : List ℕ) → s.released ≤ (hand_out_next s t ws l).released
    hand_out_grows [] = omega arith
    hand_out_grows (w ∷ l) = ground arith
run_point_grows s t (Point.notify []) = omega arith
run_point_grows s t (Point.notify (w ∷ ws)) = omega arith
run_point_grows s t p = ground arith

at_point_grows :
    (s : Semaphore) (t : ℕ) (f : Point → Semaphore)
    → ((p : Point) → s.released ≤ (f p).released)
    → s.released ≤ (at_point s t f).released
at_point_grows s t f h = grows (get_elem? s.threads t)
  where
    grows :
        (o : Option Point)
        → s.released ≤ (elim o as (λ _. Semaphore) [ none ↦ s | some p ↦ f p ]).released
    grows none = omega arith
    grows (some p) = h p

begin_grows : (s : Semaphore) (t : ℕ) (call p : Point) → s.released ≤ (begin s t call p).released
begin_grows s t call Point.idle = omega arith
begin_grows s t call p = omega arith

begin_unwind_grows :
    (s : Semaphore) (t : ℕ) (p : Point) → s.released ≤ (begin_unwind s t p).released
begin_unwind_grows s t Point.asleep = omega arith
begin_unwind_grows s t p = omega arith

advance_grows : (s : Semaphore) (e : Event) → s.released ≤ (advance s e).released
unfolding advance
advance_grows s (Event.runs t) = at_point_grows s t _ (run_point_grows s t)
advance_grows s (Event.acquires t) = at_point_grows s t _ (begin_grows s t Point.first_try)
advance_grows s (Event.releases t) = at_point_grows s t _ (begin_grows s t Point.add)
advance_grows s (Event.cancels t w) = at_point_grows s t _ (begin_grows s t (Point.cancel_lock w))
advance_grows s (Event.unwinds t) = at_point_grows s t _ (begin_unwind_grows s t)

history_grows : (s : Semaphore) (es : List Event) → s.released ≤ (history s es).released
unfolding history
history_grows s [] = omega arith
history_grows s (e ∷ es) = omega (arith, advance_grows s e, history_grows (advance s e) es)

history-Inv :
    (n : ℕ) (s : Semaphore) (es : List Event)
    → n + (history s es).released + 1 < 2 ^ 64
    → Inv n s
    → Inv n (history s es)
unfolding history
history-Inv n s [] b h = h
history-Inv n s (e ∷ es) b h =
    let later = history_grows (advance s e) es in
    let now = advance_grows s e in
    history-Inv n (advance s e) es b (advance-Inv n s e (omega arith) h)

init-Inv : (n k : ℕ) → Inv n (init n k)
unfolding init
init-Inv n k =
    let zero_of = λ (f : Point → ℕ) (e : f Point.idle ≡ 0). sum_by-replicate f Point.idle e k in
    let a = zero_of announced refl in
    let b = zero_of inside refl in
    let c = zero_of joining refl in let d = zero_of carried refl in ground arith

-- After any schedule of calls, cancellations and unwinds of a semaphore with `n` permits, while
-- fewer than 2^64 - n - 1 were released: every permit is free, carried by a thread, granted to a
-- notified waiter, taken by an acquisition that returned, or lost with an unwound waiter, and there
-- are `n` of them beside those released. So acquisitions never outnumber the permits.
pub permits_conserved :
    (n k : ℕ) (es : List Event)
    → n + (history (init n k) es).released + 1 < 2 ^ 64
    → let s = history (init n k) es in
      (s.permits + sum_by carried s.threads + length s.satisfied + s.acquired + s.lost
        ≡ n + s.released)
      × (s.acquired ≤ n + s.released)
permits_conserved n k es b =
    let h = history-Inv n (init n k) es b (init-Inv n k) in
    let eq = h.conserved in (eq, omega arith)

-- After any such schedule a free permit lies beside a queued waiter, or beside one that is about to
-- queue, only while some releaser is still on its way to the list. So no wakeup is lost.
pub permit_reaches_waiter :
    (n k : ℕ) (es : List Event)
    → n + (history (init n k) es).released + 1 < 2 ^ 64
    → let s = history (init n k) es in
      (s.permits ≡ 0)
      ⊎ (length s.waiters + sum_by joining s.threads ≡ 0)
      ⊎ (0 < sum_by releasing s.threads)
permit_reaches_waiter n k es b = (history-Inv n (init n k) es b (init-Inv n k)).served

-- After any such schedule at most one thread is inside the lock, and the count that the fast path of
-- `release` reads is that of the announced waiters.
pub lock_exclusive :
    (n k : ℕ) (es : List Event)
    → n + (history (init n k) es).released + 1 < 2 ^ 64
    → let s = history (init n k) es in
      (sum_by inside s.threads ≡ (if s.locked then 1 else 0))
      × (s.waiter_count ≡ length s.waiters + sum_by announced s.threads)
lock_exclusive n k es b =
    let h = history-Inv n (init n k) es b (init-Inv n k) in (h.exclusive, h.counted)
