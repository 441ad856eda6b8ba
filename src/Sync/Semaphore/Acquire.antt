-- ===== src/Sync/Semaphore/Acquire.antt =====
-- Acquiring keeps the invariant.
use stackfull.Base.{ℕ, ◌≡◌, some, [], ◌∷◌, arith, get_elem?, length-append}
use stackfull.Sync.Semaphore.{Semaphore, Point, acquire_fast, acquire_slow}
use stackfull.Sync.Semaphore.Total.{length-remove}
use stackfull.Sync.Semaphore.Invariant.{Inv, moved}

module _ (n : ℕ) (s : Semaphore) (t : ℕ) (h : Inv n s) where
  pub acquire_fast-Inv : get_elem? s.threads t ≡ some Point.first_try → Inv n (acquire_fast s t)
  unfolding acquire_fast
  acquire_fast-Inv e =
      ground
        (arith, moved s t Point.first_try Point.idle e, moved s t Point.first_try Point.slow_lock e)

  pub slow_lock-Inv :
      get_elem? s.threads t ≡ some Point.slow_lock → Inv n (acquire_slow s t Point.slow_lock)
  unfolding acquire_slow
  slow_lock-Inv e = ground (arith, moved s t Point.slow_lock Point.announce e)

  pub announce-Inv :
      get_elem? s.threads t ≡ some Point.announce → Inv n (acquire_slow s t Point.announce)
  unfolding acquire_slow
  announce-Inv e =
      ground
        (arith, moved s t Point.announce Point.idle e, moved s t Point.announce Point.try_again e)

  pub try_again-Inv :
      get_elem? s.threads t ≡ some Point.try_again → Inv n (acquire_slow s t Point.try_again)
  unfolding acquire_slow
  try_again-Inv e =
      ground
        (arith, moved s t Point.try_again Point.retract e, moved s t Point.try_again Point.join e)

  pub retract-Inv :
      get_elem? s.threads t ≡ some Point.retract → Inv n (acquire_slow s t Point.retract)
  unfolding acquire_slow
  retract-Inv e = ground (arith, moved s t Point.retract Point.idle e)

  pub join-Inv : get_elem? s.threads t ≡ some Point.join → Inv n (acquire_slow s t Point.join)
  unfolding acquire_slow
  join-Inv e = ground (arith, moved s t Point.join Point.asleep e, length-append s.waiters (t ∷ []))

  pub asleep-Inv : get_elem? s.threads t ≡ some Point.asleep → Inv n (acquire_slow s t Point.asleep)
  unfolding acquire_slow
  asleep-Inv e = ground (arith, moved s t Point.asleep Point.idle e, length-remove s.satisfied t)
