-- ===== src/Sync/Semaphore/Invariant.antt =====
-- What holds between any two accesses.
use stackfull.Base.{
  ℕ, ◌+◌, ◌≤◌, ◌<◌, ◌≡◌, ◌⊎◌, some, arith, if◌then◌else◌, length, get_elem?, set, sum_by,
  sum_by-set, le-sum_by, sum_by_mono,
}
use stackfull.Sync.Semaphore.{Semaphore, Point}
use stackfull.Sync.Semaphore.Total.{
  announced, joining, handing, inside, releasing, carried, joining-handing, joining-announced,
}

-- In a semaphore that began with `n` permits: the count is that of the announced waiters, at most
-- one thread is inside the lock, a permit lies beside a waiter only while a releaser is on its way,
-- and no permit is made or lost.
pub record Inv (n : ℕ) (s : Semaphore) : Type 0 where
  pub counted : s.waiter_count ≡ length s.waiters + sum_by announced s.threads
  pub exclusive : sum_by inside s.threads ≡ (if s.locked then 1 else 0)
  pub served :
      (s.permits ≡ 0)
      ⊎ (length s.waiters + sum_by joining s.threads ≡ 0)
      ⊎ (0 < sum_by releasing s.threads)
  pub conserved :
      s.permits + sum_by carried s.threads + length s.satisfied + s.acquired + s.lost
      ≡ n + s.released

module _ (s : Semaphore) (t : ℕ) where
  -- What thread `t` weighs before and after it goes from `p` to `q`.
  abbrev pub Moved : Point → Point → Type 0
  Moved p q =
      (sum_by announced (set s.threads t q) + announced p
        ≡ sum_by announced s.threads + announced q)
      × (sum_by inside (set s.threads t q) + inside p ≡ sum_by inside s.threads + inside q)
      × (sum_by joining (set s.threads t q) + joining p ≡ sum_by joining s.threads + joining q)
      × (sum_by releasing (set s.threads t q) + releasing p
          ≡ sum_by releasing s.threads + releasing q)
      × (sum_by carried (set s.threads t q) + carried p ≡ sum_by carried s.threads + carried q)
      × (sum_by joining s.threads + sum_by handing s.threads ≤ sum_by inside s.threads)
      × (sum_by joining s.threads ≤ sum_by announced s.threads)
      × (handing p ≤ sum_by handing s.threads)

  pub moved : (p q : Point) → get_elem? s.threads t ≡ some p → Moved p q
  moved p q e = (
    sum_by-set announced s.threads t p q e,
    sum_by-set inside s.threads t p q e,
    sum_by-set joining s.threads t p q e,
    sum_by-set releasing s.threads t p q e,
    sum_by-set carried s.threads t p q e,
    sum_by_mono joining handing inside joining-handing s.threads,
    omega (arith, sum_by_mono joining (λ _. 0) announced joining-announced s.threads),
    le-sum_by handing s.threads t p e,
  )
