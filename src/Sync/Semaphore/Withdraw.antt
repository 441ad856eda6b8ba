-- ===== src/Sync/Semaphore/Withdraw.antt =====
-- Cancelling and unwinding keep the invariant.
use stackfull.Base.{ℕ, ◌≡◌, some, arith, get_elem?}
use stackfull.Sync.Semaphore.{Semaphore, Point, cancel, unwind}
use stackfull.Sync.Semaphore.Total.{length-remove}
use stackfull.Sync.Semaphore.Invariant.{Inv, moved}

module _ (n : ℕ) (s : Semaphore) (t : ℕ) (h : Inv n s) where
  pub cancel_lock-Inv :
      (w : ℕ)
      → get_elem? s.threads t ≡ some (Point.cancel_lock w)
      → Inv n (cancel s t (Point.cancel_lock w))
  unfolding cancel
  cancel_lock-Inv w e = ground (arith, moved s t (Point.cancel_lock w) (Point.unlink w) e)

  pub unlink-Inv :
      (w : ℕ) → get_elem? s.threads t ≡ some (Point.unlink w) → Inv n (cancel s t (Point.unlink w))
  unfolding cancel
  unlink-Inv w e = ground (
    arith,
    moved s t (Point.unlink w) (Point.cancel_count) e,
    moved s t (Point.unlink w) (Point.idle) e,
    length-remove s.waiters w,
  )

  pub cancel_count-Inv :
      get_elem? s.threads t ≡ some Point.cancel_count → Inv n (cancel s t Point.cancel_count)
  unfolding cancel
  cancel_count-Inv e = ground (arith, moved s t Point.cancel_count Point.idle e)

  pub unwind_lock-Inv :
      get_elem? s.threads t ≡ some Point.unwind_lock → Inv n (unwind s t Point.unwind_lock)
  unfolding unwind
  unwind_lock-Inv e = ground (arith, moved s t Point.unwind_lock Point.unwind_unlink e)

  pub unwind_unlink-Inv :
      get_elem? s.threads t ≡ some Point.unwind_unlink → Inv n (unwind s t Point.unwind_unlink)
  unfolding unwind
  unwind_unlink-Inv e = ground (
    arith,
    moved s t Point.unwind_unlink Point.unwind_count e,
    moved s t Point.unwind_unlink Point.await_notifier e,
    length-remove s.waiters t,
  )

  pub unwind_count-Inv :
      get_elem? s.threads t ≡ some Point.unwind_count → Inv n (unwind s t Point.unwind_count)
  unfolding unwind
  unwind_count-Inv e = ground (arith, moved s t Point.unwind_count Point.idle e)

  pub await_notifier-Inv :
      get_elem? s.threads t ≡ some Point.await_notifier → Inv n (unwind s t Point.await_notifier)
  unfolding unwind
  await_notifier-Inv e =
      ground (arith, moved s t Point.await_notifier Point.idle e, length-remove s.satisfied t)
