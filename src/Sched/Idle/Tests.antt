-- ===== src/Sched/Idle/Tests.antt =====
-- A worker that falls asleep while a task is injected, and the theorem at that run.
use stackfull.Base.{ℕ, ◌<◌, ◌≡◌, refl, false, none, some, List, [], ◌∷◌, arith, get_elem?, sum_by}
use stackfull.Sched.Idle.{Worker, run_worker, run_producer, unparks}
use stackfull.Sched.Idle.Run.{Event, works, turns, injects, notifies, advance, history, started}
use stackfull.Sched.Idle.Awake.{notifying}
use stackfull.Sched.Idle.Found.{WillLook, injected_is_noticed}

-- The one worker has found nothing and marked itself; the task arrives after its last look.
abbrev late_task : List Event
late_task =
    turns 0
    ∷ works 0 false
    ∷ works 0 false
    ∷ works 0 false
    ∷ works 0 false
    ∷ turns 0
    ∷ works 0 false
    ∷ works 0 false
    ∷ injects 0
    ∷ notifies 0 none
    ∷ notifies 0 none
    ∷ notifies 0 none
    ∷ notifies 0 none
    ∷ notifies 0 none
    ∷ []

is_claimed : (history (started 1 1) late_task).producers ≡ unparks 0 ∷ []
unfolding history advance run_worker run_producer
is_claimed = refl

one_task : 0 < (history (started 1 1) late_task).injected
unfolding history advance run_worker run_producer
one_task = omega arith

all_told : sum_by notifying (history (started 1 1) late_task).producers ≡ 0
unfolding history advance run_worker run_producer
all_told = refl

injected_is_noticed_example :
    let s = history (started 1 1) late_task in
    (i : ℕ) × (w : Worker) × (get_elem? s.workers i ≡ some w) × WillLook s i w
injected_is_noticed_example = injected_is_noticed 1 1 late_task (omega arith) one_task all_told
