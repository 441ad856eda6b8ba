-- ===== src/Sched/Parking/Task.antt =====
-- The accesses of the task keep the invariant.
use stackfull.Base.{◌≡◌, arith}
use stackfull.Sched.Parking.{
  System, Runner, on_worker, consumes, parks, hook_stores, hook_schedules, yields, away, completes,
  drops, bumps, awaits, freed, run_runner,
}
use stackfull.Sched.Parking.Weight.{sums}
use stackfull.Sched.Parking.Invariant.{Inv}

pub runner-Inv : (s : System) (r : Runner) → Inv s → s.runner ≡ r → Inv (run_runner s r)
unfolding run_runner
runner-Inv s consumes h at = ground (arith, sums s.threads)
runner-Inv s parks h at = ground (arith, sums s.threads)
runner-Inv s hook_stores h at = ground (arith, sums s.threads)
runner-Inv s hook_schedules h at = ground (arith, sums s.threads)
runner-Inv s yields h at = ground (arith, sums s.threads)
runner-Inv s completes h at = ground (arith, sums s.threads)
runner-Inv s drops h at = ground (arith, sums s.threads)
runner-Inv s bumps h at = ground (arith, sums s.threads)
runner-Inv s awaits h at = ground (arith, sums s.threads)
runner-Inv s freed h at = h
runner-Inv s away h at = h
runner-Inv s on_worker h at = h
