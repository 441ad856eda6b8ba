-- ===== src/Sched/Parking/Tests.antt =====
-- Schedules of the parking protocol, and the theorems at them.
use stackfull.Base.{
  ℕ, ◌+◌, ◌≡◌, refl, ◌⊎◌, true, false, some, List, [], ◌∷◌, arith, ◌==◌, if◌then◌else◌, get_elem?,
  sum_by,
}
use stackfull.Sched.Parking.{freed, raw, parked, notified, done, Point, run_point, run_runner}
use stackfull.Sched.Parking.Run.{
  Event, takes, task_parks, task_moves, task_returns, wakes, runs, reaps, history, spawned, advance,
}
use stackfull.Sched.Parking.Weight.{held, holding, late_runner, late}
use stackfull.Sched.Parking.{completes}
use stackfull.Sched.Parking.Carry.{Carried}
use stackfull.Sched.Parking.Progress.{woken_runs}
use stackfull.Sched.Parking.Safety.{scheduled_once, no_lost_wake, no_use_after_free, uses_task}

-- The task parks while thread 0 wakes it, which finds it parked; thread 1 wakes it as well.
abbrev wake_of_parked : List Event
wake_of_parked =
    takes
    ∷ task_parks
    ∷ wakes 0 7
    ∷ runs 0
    ∷ runs 0
    ∷ runs 0
    ∷ task_moves
    ∷ runs 0
    ∷ runs 0
    ∷ wakes 1 7
    ∷ runs 1
    ∷ runs 1
    ∷ runs 1
    ∷ runs 0
    ∷ runs 1
    ∷ []

parks_and_is_woken : (history (spawned 7 2) wake_of_parked).owed ≡ true
unfolding history advance run_runner run_point
parks_and_is_woken = refl

scheduled_once_example :
    let s = history (spawned 7 2) wake_of_parked in
    (s.collided ≡ false)
    × (held s.runner + s.queued + sum_by holding s.threads
        ≡ (if s.park_state == raw parked then 0 else 1))
scheduled_once_example = scheduled_once 7 2 wake_of_parked (omega arith)

no_lost_wake_at_run :
    let s = history (spawned 7 2) wake_of_parked in
    (s.park_state ≡ raw notified)
    ⊎ ((s.park_state ≡ raw done)
        ⊎ ((s.in_park ≡ true) × (late_runner s.runner + s.queued + sum_by late s.threads ≡ 1)))
no_lost_wake_at_run = no_lost_wake 7 2 wake_of_parked (omega arith) parks_and_is_woken

-- Thread 0 pins the slot and loads the task before it returns and is released; the release waits.
abbrev wake_of_finished : List Event
wake_of_finished =
    takes
    ∷ wakes 0 7
    ∷ runs 0
    ∷ runs 0
    ∷ runs 0
    ∷ task_returns
    ∷ task_moves
    ∷ task_moves
    ∷ task_moves
    ∷ task_moves
    ∷ runs 0
    ∷ runs 0
    ∷ task_moves
    ∷ reaps 1
    ∷ runs 1
    ∷ runs 1
    ∷ []

is_freed : (history (spawned 7 2) wake_of_finished).runner ≡ freed
unfolding history advance run_runner run_point
is_freed = refl

no_use_after_free_example :
    let s = history (spawned 7 2) wake_of_finished in
    (s.has_task ≡ false)
    × (s.queued ≡ 0)
    × ((t : ℕ) (p : Point) → get_elem? s.threads t ≡ some p → uses_task p ≡ false)
no_use_after_free_example = no_use_after_free 7 2 wake_of_finished (omega arith) is_freed

woken_runs_example :
    let s = history (spawned 7 2) wake_of_parked in
    (s.park_state ≡ raw done) ⊎ (s.runner ≡ completes) ⊎ Carried s 6
woken_runs_example = woken_runs 7 2 wake_of_parked (omega arith) parks_and_is_woken
