-- ===== src/Sched/Parking/Invariant.antt =====
-- What holds of a task between any two accesses.
use stackfull.Base.{◌+◌, ◌^◌, ◌<◌, ◌≡◌, ◌⊎◌, true, false, ◌==◌, if◌then◌else◌, sum_by}
use stackfull.Sched.Parking.Weight.{
  misled, held, holding, pinning, reading, late_runner, late, parking, ended, unlisted, gone, one,
}
use stackfull.Sched.Parking.{raw, parked, notified, done, System}

pub record Inv (s : System) : Type 0 where
  pub few : sum_by one s.threads < 2 ^ 32
  pub counted : s.pin_count ≡ sum_by pinning s.threads
  pub exclusive :
      held s.runner + s.queued + sum_by holding s.threads
      ≡ (if s.park_state == raw parked then 0 else 1)
  pub bounded : s.park_state < 4
  pub apt : sum_by misled s.threads ≡ 0
  pub safe : s.collided ≡ false
  pub finished : ended s.runner ≡ (if s.park_state == raw done then 1 else 0)
  pub listed : unlisted s.runner + (if s.has_task then 1 else 0) ≡ 1
  pub untouched : (gone s.runner ≡ 0) ⊎ (sum_by reading s.threads ≡ 0)
  pub inside :
      (s.in_park ≡ true)
      ⊎ ((parking s.runner + sum_by holding s.threads ≡ 0) × ((s.park_state == raw parked) ≡ false))
  pub woken :
      (s.owed ≡ false)
      ⊎ ((s.park_state ≡ raw notified)
          ⊎ ((s.park_state ≡ raw done)
              ⊎ ((s.in_park ≡ true)
                  × (late_runner s.runner + s.queued + sum_by late s.threads ≡ 1))))
