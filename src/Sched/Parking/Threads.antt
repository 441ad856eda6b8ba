-- ===== src/Sched/Parking/Threads.antt =====
-- The accesses of the threads keep the invariant.
use stackfull.Base.{ℕ, ◌≡◌, true, false, none, some, arith, get_elem?, set}
use stackfull.Sched.Parking.{
  System, Point, outside, pins, checks, loads, looks, tries, stores, schedules, unpins, returned,
  reap_pins, reap_loads, claims, reap_unpins, shields, puts_back, reap_stores, reap_schedules,
  unwinds, run_point, after_look,
}
use stackfull.Sched.Parking.Run.{fail}
use stackfull.Sched.Parking.Weight.{
  Moved, Sums, Stages, moved, sums, stages, holding, reading, Least, least,
}
use stackfull.Sched.Parking.Invariant.{Inv}

module _ (s : System) (t : ℕ) where
  -- What a move of the thread from `p` to `q` can draw on.
  abbrev pub Facts : Point → Point → Type 0
  Facts p q =
      Moved s t p q × Sums s.threads × Sums (set s.threads t q) × Stages s.runner × Least s p

  pub facts : (p q : Point) → get_elem? s.threads t ≡ some p → Facts p q
  facts p q e =
      (moved s t p q e, sums s.threads, sums (set s.threads t q), stages s.runner, least s t p e)

  -- A state that was read now: a waker that sees a token is content.
  look-Inv :
      (p : Point)
      → (reading p ≡ 1) × (holding p ≡ 0)
      → Inv s
      → get_elem? s.threads t ≡ some p
      → Inv (after_look s t s.park_state)
  look-Inv p at h e = ground (arith, facts p (unpins true) e, facts p (tries s.park_state) e)

  pub run_point-Inv : (p : Point) → Inv s → get_elem? s.threads t ≡ some p → Inv (run_point s t p)
  unfolding run_point
  run_point-Inv outside h e = h
  run_point-Inv (returned woke) h e = h
  run_point-Inv (pins (some g)) h e = ground (arith, facts (pins (some g)) (checks g) e)
  run_point-Inv (pins none) h e = ground (arith, facts (pins none) loads e)
  run_point-Inv (checks g) h e =
      ground (arith, facts (checks g) loads e, facts (checks g) (unpins false) e)
  run_point-Inv loads h e = ground (arith, facts loads looks e, facts loads (unpins false) e)
  run_point-Inv looks h e = look-Inv looks (omega arith) h e
  run_point-Inv (tries seen) h e = ground (
    arith,
    facts (tries seen) stores e,
    facts (tries seen) (unpins true) e,
    facts (tries seen) (tries s.park_state) e,
  )
  run_point-Inv stores h e = ground (arith, facts stores schedules e)
  run_point-Inv schedules h e = ground (arith, facts schedules (unpins true) e)
  run_point-Inv (unpins woke) h e = ground (arith, facts (unpins woke) (returned woke) e)
  run_point-Inv reap_pins h e = ground (arith, facts reap_pins reap_loads e)
  run_point-Inv reap_loads h e =
      ground (arith, facts reap_loads claims e, facts reap_loads (reap_unpins false) e)
  run_point-Inv claims h e =
      ground (arith, facts claims (reap_unpins true) e, facts claims (reap_unpins false) e)
  run_point-Inv (reap_unpins true) h e = ground (arith, facts (reap_unpins true) shields e)
  run_point-Inv (reap_unpins false) h e =
      ground (arith, facts (reap_unpins false) (returned false) e)
  run_point-Inv shields h e = ground (arith, facts shields puts_back e, facts shields unwinds e)
  run_point-Inv puts_back h e =
      ground (arith, facts puts_back (returned false) e, facts puts_back reap_stores e)
  run_point-Inv reap_stores h e = ground (arith, facts reap_stores reap_schedules e)
  run_point-Inv reap_schedules h e = ground (arith, facts reap_schedules (returned false) e)
  run_point-Inv unwinds h e = ground (arith, facts unwinds (returned true) e)

  pub fail-Inv : (p : Point) → Inv s → get_elem? s.threads t ≡ some p → Inv (fail s t p)
  fail-Inv (tries seen) h e = look-Inv (tries seen) (omega arith) h e
  fail-Inv p h e = ground arith
