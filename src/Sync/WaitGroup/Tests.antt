-- ===== src/Sync/WaitGroup/Tests.antt =====
-- A group of two parties, and a third that waits for them.
use stackfull.Base.{◌+◌, ◌≡◌, refl, ◌⊎◌, true, false, List, [], ◌∷◌, arith, length, replicate}
use stackfull.Sync.WaitGroup.{member, releases}
use stackfull.Sync.WaitGroup.Notify.{releases-IsNotified}
use stackfull.Sync.WaitGroup.{
  wait, done, add, advance, WaitGroup, Event, adds, dones, waits, moves, history, initial,
  run_point,
}
use stackfull.Sync.WaitGroup.Release.{history-IsCovered, Stopped, IsCovered}

abbrev events : List Event
events =
    adds 2
    ∷ waits 3 (record { address = 9; is_cancelled = false })
    ∷ moves 3
    ∷ dones 1
    ∷ dones 2
    ∷ []

abbrev group : WaitGroup
group = history initial events

waiting : (group.waiters ≡ 9 ∷ []) × (group.pending ≡ 0)
unfolding history advance add done wait run_point
waiting = (refl, refl)

history-IsCovered_example : Stopped group ⊎ IsCovered group
history-IsCovered_example = history-IsCovered events (omega arith)

at_release : (group.points 2 ≡ releases) × (member group.waiters 9 ≡ true)
unfolding history advance add done wait run_point
at_release = (refl, refl)

releases-IsNotified_example :
    member (history group (replicate (length group.waiters + 1) (moves 2))).notified 9 ≡ true
releases-IsNotified_example = releases-IsNotified group 2 9 at_release.0 at_release.1
