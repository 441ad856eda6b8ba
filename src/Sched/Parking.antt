-- ===== src/Sched/Parking.antt =====
-- The protocol by which a task parks and is woken: park in sched/include/stackfull/sched/ThisTask.h,
-- wake and the post-switch hooks in sched/include/stackfull/sched/detail/Runtime.h, WakeToken::wake
-- in sched/src/WakeToken.cpp, reapParkedTasks in sched/src/Worker.cpp, and the release of the slot in
-- sched/src/SchedulerCore.cpp. The machine is of one task and its slot; a step is one access of the
-- task or of a thread to an atomic, or a hand-over of the task.
mod Run
mod Weight
mod Invariant
mod Task
mod Threads
mod Safety
mod Carry
mod Progress
mod Tests
use stackfull.Base.{
  ℕ, ◌+◌, ◌-◌, ◌%◌, ◌^◌, Bool, true, false, not, ◌&&◌, ◌||◌, Option, none, some, List, ◌==◌,
  if◌then◌else◌, set,
}

pub data TaskState : Type 0 where
  running parked notified done : TaskState

abbrev pub raw : TaskState → ℕ
raw running = 0
raw parked = 1
raw notified = 2
raw done = 3

-- Where the task stands: on a worker; in `park`, before the store that consumes a token; switched
-- out by `park`, before each access of `onTaskParked`; switched out by a yield; switched out and
-- left alone; returned, before each access of `releaseTask`; and freed.
pub data Runner : Type 0 where
  on_worker consumes parks hook_stores hook_schedules yields away : Runner
  completes drops bumps awaits freed : Runner

-- Where a thread stands: before which access of which call.
pub data Point : Type 0 where
  outside : Point
  -- `WakeToken::wake` of a token with a generation, `wakeAllParked`, and the `wake` in both.
  pins : Option ℕ → Point
  checks : ℕ → Point
  loads looks : Point
  tries : ℕ → Point
  stores schedules : Point
  unpins : Bool → Point
  returned : Bool → Point
  -- `reapParkedTasks`, at the slot of the task.
  reap_pins reap_loads claims : Point
  reap_unpins : Bool → Point
  shields puts_back reap_stores reap_schedules unwinds : Point

-- The task, its slot and the threads. `queued` counts the places in run queues that hold the task.
-- Only the theorems read the last three: whether the task is inside `park`, whether a wake has come
-- since `park` last returned, and whether the task was resumed while it was not switched out.
pub record System : Type 0 where
  pub park_state : ℕ  -- std::uint8_t
  pub runner : Runner
  pub queued : ℕ
  pub has_task : Bool
  pub generation : ℕ  -- std::uint32_t
  pub pin_count : ℕ  -- std::uint32_t
  pub is_shielded : Bool
  pub threads : List Point
  pub in_park : Bool
  pub owed : Bool
  pub collided : Bool

abbrev pub go : System → ℕ → Point → System
go s t p = record s { threads = set s.threads t p }

abbrev pub is_away : Runner → Bool
is_away away = true
is_away r = false

-- A worker switches to the task.
abbrev pub resume : System → System
resume s = record s {
  runner = on_worker;
  collided = s.collided || not (is_away s.runner);
  owed = s.owed && not s.in_park;
  in_park = false;
}

-- `schedule` puts the task into a run queue.
abbrev pub schedule : System → System
schedule s = record s { queued = s.queued + 1 }

-- The load of `park`: a token that is there is consumed, else the task switches out.
abbrev pub park : System → System
park s =
    if s.park_state == raw notified
    then record s { runner = consumes; in_park = true }
    else record s { runner = parks; in_park = true }

-- In `park`, the store that consumes a token.
abbrev pub consume : System → System
consume s = record s { park_state = raw running; runner = on_worker; owed = false; in_park = false }

-- `onTaskParked`: a wake that came before the switch has the task scheduled again.
abbrev pub on_task_parked : System → Runner → System
on_task_parked s parks =
    if s.park_state == raw running
    then record s { park_state = raw parked; runner = away }
    else record s { runner = hook_stores }
on_task_parked s hook_stores = record s { park_state = raw running; runner = hook_schedules }
on_task_parked s hook_schedules = schedule (record s { runner = away })
on_task_parked s r = s

abbrev pub on_task_yielded : System → System
on_task_yielded s = schedule (record s { runner = away })

-- `releaseTask`, up to the point where the memory of the task is given back.
abbrev pub release_task : System → Runner → System
release_task s completes = record s { park_state = raw done; runner = drops }
release_task s drops = record s { has_task = false; runner = bumps }
release_task s bumps = record s { generation = (s.generation + 1) % 2 ^ 32; runner = awaits }
release_task s awaits = if s.pin_count == 0 then record s { runner = freed } else s
release_task s r = s

pub run_runner : System → Runner → System
run_runner s consumes = consume s
run_runner s yields = on_task_yielded s
run_runner s parks = on_task_parked s parks
run_runner s hook_stores = on_task_parked s hook_stores
run_runner s hook_schedules = on_task_parked s hook_schedules
run_runner s away = s
run_runner s on_worker = s
run_runner s r = release_task s r

abbrev pub pin : System → System
pin s = record s { pin_count = (s.pin_count + 1) % 2 ^ 32 }

abbrev pub unpin : System → System
unpin s = record s { pin_count = (s.pin_count + (2 ^ 32 - 1)) % 2 ^ 32 }

-- The loop of `wake` once it has read a state: a token that is there already, or a task that is
-- done, ends it.
abbrev pub after_look : System → ℕ → ℕ → System
after_look s t seen =
    if seen == raw notified || seen == raw done
    then go (record s { owed = true }) t (unpins true)
    else go s t (tries seen)

-- `wake`, of which both callers hold a pin.
abbrev pub wake : System → ℕ → Point → System
wake s t looks = after_look s t s.park_state
wake s t (tries seen) =
    if s.park_state == seen
    then go (record s { park_state = raw notified; owed = true }) t
        (if seen == raw parked then stores else unpins true)
    else after_look s t s.park_state
wake s t stores = go (record s { park_state = raw running }) t schedules
wake s t schedules = go (schedule s) t (unpins true)
wake s t p = s

-- `wakeAllParked` at this slot, which looks at no generation and goes on like a token's wake.
abbrev pub wake_all_parked : System → ℕ → System
wake_all_parked s t = go (pin s) t loads

-- `WakeToken::wake`.
abbrev pub wake_token : System → ℕ → Point → System
wake_token s t (pins (some generation)) = go (pin s) t (checks generation)
wake_token s t (pins none) = wake_all_parked s t
wake_token s t (checks generation) =
    if s.generation == generation then go s t loads else go s t (unpins false)
wake_token s t loads = if s.has_task then go s t looks else go s t (unpins false)
wake_token s t (unpins woke) = go (unpin s) t (returned woke)
wake_token s t p = s

-- `reapParkedTasks` at this slot.
abbrev pub reap : System → ℕ → Point → System
reap s t reap_pins = go (pin s) t reap_loads
reap s t reap_loads = if s.has_task then go s t claims else go s t (reap_unpins false)
reap s t claims =
    if s.park_state == raw parked
    then go (record s { park_state = raw running }) t (reap_unpins true)
    else go s t (reap_unpins false)
reap s t (reap_unpins claimed) = go (unpin s) t (if claimed then shields else returned false)
reap s t shields = if s.is_shielded then go s t puts_back else go s t unwinds
reap s t puts_back =
    if s.park_state == raw running
    then go (record s { park_state = raw parked }) t (returned false)
    else go s t reap_stores
reap s t reap_stores = go (record s { park_state = raw running }) t reap_schedules
reap s t reap_schedules = go (schedule s) t (returned false)
reap s t unwinds = go (resume s) t (returned true)
reap s t p = s

pub run_point : System → ℕ → Point → System
run_point s t outside = s
run_point s t (returned woke) = s
run_point s t (pins generation) = wake_token s t (pins generation)
run_point s t (checks generation) = wake_token s t (checks generation)
run_point s t loads = wake_token s t loads
run_point s t (unpins woke) = wake_token s t (unpins woke)
run_point s t looks = wake s t looks
run_point s t (tries seen) = wake s t (tries seen)
run_point s t stores = wake s t stores
run_point s t schedules = wake s t schedules
run_point s t p = reap s t p
