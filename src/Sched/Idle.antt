-- ===== src/Sched/Idle.antt =====
-- How injected tasks find a worker: inject and notifyIdleWorker, markIdle and clearIdle in
-- sched/src/SchedulerCore.cpp, and searchForWork, spinForWork and parkIdle in sched/src/Worker.cpp. A
-- step is one access of a worker or of a party that injects; tasks are counted, and what a worker
-- finds in its own queues or steals is what the schedule of steps says. The scheduler is one without a
-- Driver: its timekeeper sleeps on its parker as the other workers do, for a limited time, and
-- `unparkWorker` has no Driver to wake. The further wakes by which a searcher that found work asks for
-- more workers are left out.
mod Run
mod Awake
mod Moves
mod Mask
mod Notify
mod Found
mod Tests
use stackfull.Base.{
  ℕ, suc, ◌+◌, ◌-◌, ◌/◌, Bool, true, false, ◌&&◌, ◌||◌, Option, none, some, List, [], ◌∷◌, map, ltb,
  ◌==◌, if◌then◌else◌, length, get_elem?, set,
}

abbrev pub k_max_spinners : ℕ
k_max_spinners = 2

-- Where a worker stands: with tasks, or on its way back to them; in `searchForWork`, before it
-- becomes a searcher, before each pop, and before it steps down; in `parkIdle`, before the spin, in it,
-- before it steps down from it and looks again, before it marks itself idle and looks again, before
-- it takes the mark back or drains the token of one that took it, asleep, and woken.
pub data Point : Type 0 where
  busy seeks idles spins spin_looks marks looks_again unmarks drains asleep clears : Point
  searches : Bool → Point
  retries : Point
  steps_down spin_ends : Bool → Point

pub record Worker : Type 0 where
  pub point : Point
  pub is_idle : Bool  -- its bit of idleMask
  pub token : Bool  -- of its parker

-- Where a party that injects stands: outside, before the push, in it, between the allocation of its
-- entry and the commit, before the load of `searching`, before that of the mask, before the compare-exchange on the mask it saw, and before the unpark.
pub data Producer : Type 0 where
  outside pushes commits asks reads : Producer
  claims : List Bool → Producer
  unparks : ℕ → Producer

pub record System : Type 0 where
  pub injected : ℕ
  pub searching : ℕ
  pub workers : List Worker
  pub producers : List Producer

-- Worker `i` goes on.
abbrev pub at_work : System → ℕ → Worker → System
at_work s i w = record s { workers = set s.workers i w }

abbrev pub go : System → ℕ → Worker → Point → System
go s i w p = at_work s i (record w { point = p })

-- Whether a party is in the middle of its push.
abbrev pub is_committing : List Producer → Bool
is_committing [] = false
is_committing (commits ∷ ps) = true
is_committing (p ∷ ps) = is_committing ps

-- `popInjection`: on with a task, or without. While a party is in the middle of its push, the queue
-- may answer that it is busy, 16 times; `gives_up` says that it does.
abbrev pub pop : Bool → System → ℕ → Worker → Point → Point → System
pop gives_up s i w found not_found =
    if s.injected == 0 || gives_up && is_committing s.producers
    then go s i w not_found
    else go (record s { injected = s.injected - 1 }) i w found

abbrev pub limit : System → ℕ
limit s = length s.workers / 2 + 1

-- `searchForWork`; a searcher that finds nothing in the injection queue tries to steal, and looks again.
abbrev pub search_for_work : Bool → System → ℕ → Worker → Point → System
search_for_work gives_up s i w seeks =
    if ltb s.searching (limit s)
    then go (record s { searching = s.searching + 1 }) i w (searches true)
    else go s i w (searches false)
search_for_work gives_up s i w (searches true) = pop gives_up s i w (steps_down true) retries
search_for_work gives_up s i w (searches false) = pop gives_up s i w busy idles
search_for_work gives_up s i w retries = pop gives_up s i w (steps_down true) (steps_down false)
search_for_work gives_up s i w (steps_down found) =
    go (record s { searching = s.searching - 1 }) i w (if found then busy else idles)
search_for_work gives_up s i w p = s

-- `spinForWork`: unless it is skipped or enough workers spin.
abbrev pub spin_for_work : Bool → System → ℕ → Worker → Point → System
spin_for_work gives_up s i w idles =
    if ltb s.searching k_max_spinners
    then go (record s { searching = s.searching + 1 }) i w spins
    else go s i w marks
spin_for_work gives_up s i w spins = pop gives_up s i w (spin_ends true) spins
spin_for_work gives_up s i w (spin_ends found) =
    go (record s { searching = s.searching - 1 }) i w (if found then busy else spin_looks)
spin_for_work gives_up s i w spin_looks = pop gives_up s i w busy marks
spin_for_work gives_up s i w p = s

-- `parkIdle` after the spin. Without a Driver, `sleepIdle` is a sleep on the parker for the timekeeper
-- and for every other worker; that it may end by its time limit is in `turn`.
abbrev pub park_idle : Bool → System → ℕ → Worker → Point → System
park_idle gives_up s i w marks = at_work s i (record w { point = looks_again; is_idle = true })
park_idle gives_up s i w looks_again = pop gives_up s i w unmarks asleep
park_idle gives_up s i w unmarks =
    at_work s i (record w { point = if w.is_idle then busy else drains; is_idle = false })
park_idle gives_up s i w drains = at_work s i (record w { point = busy; token = false })
park_idle gives_up s i w asleep =
    if w.token then at_work s i (record w { point = clears; token = false }) else s
park_idle gives_up s i w clears = at_work s i (record w { point = busy; is_idle = false })
park_idle gives_up s i w p = s

pub run_worker : Bool → System → ℕ → Worker → Point → System
run_worker gives_up s i w busy = s
run_worker gives_up s i w seeks = search_for_work gives_up s i w seeks
run_worker gives_up s i w (searches b) = search_for_work gives_up s i w (searches b)
run_worker gives_up s i w retries = search_for_work gives_up s i w retries
run_worker gives_up s i w (steps_down b) = search_for_work gives_up s i w (steps_down b)
run_worker gives_up s i w idles = spin_for_work gives_up s i w idles
run_worker gives_up s i w spins = spin_for_work gives_up s i w spins
run_worker gives_up s i w (spin_ends b) = spin_for_work gives_up s i w (spin_ends b)
run_worker gives_up s i w spin_looks = spin_for_work gives_up s i w spin_looks
run_worker gives_up s i w p = park_idle gives_up s i w p

-- A task of its own queues, or a stolen one, that the worker finds on its way.
abbrev pub find : System → ℕ → Worker → Point → System
find s i w retries = go s i w (steps_down true)
find s i w spins = go s i w (spin_ends true)
find s i w spin_looks = go s i w busy
find s i w looks_again = go s i w unmarks
find s i w p = s

-- The other ways on: no task left, no spin, the end of a spin, or of a sleep with a time limit.
abbrev pub turn : System → ℕ → Worker → Point → System
turn s i w busy = go s i w seeks
turn s i w idles = go s i w marks
turn s i w spins = go s i w (spin_ends false)
turn s i w asleep = go s i w clears
turn s i w p = s

abbrev pub idle_mask : List Worker → List Bool
idle_mask ws = map (λ w. w.is_idle) ws

abbrev pub same_mask : List Bool → List Bool → Bool
same_mask [] [] = true
same_mask [] (b ∷ bs) = false
same_mask (a ∷ cs) [] = false
same_mask (true ∷ cs) (true ∷ bs) = same_mask cs bs
same_mask (false ∷ cs) (false ∷ bs) = same_mask cs bs
same_mask (true ∷ cs) (false ∷ bs) = false
same_mask (false ∷ cs) (true ∷ bs) = false

-- The lowest bit of a mask that is set.
abbrev pub lowest : List Bool → Option ℕ
lowest [] = none
lowest (true ∷ bs) = some 0
lowest (false ∷ bs) = elim (lowest bs) [ none ↦ none | some i ↦ some (suc i) ]

-- The candidate: the timekeeper only when no other worker is idle.
abbrev pub candidate : List Bool → Option ℕ → Option ℕ
candidate mask none = lowest mask
candidate mask (some keeper) = elim (lowest (set mask keeper false)) [
  | none ↦ lowest mask
  | some i ↦ some i
]

abbrev pub move : System → ℕ → Producer → System
move s t p = record s { producers = set s.producers t p }

-- The claim of a worker, whose bit is cleared.
abbrev pub claim : System → ℕ → Option ℕ → System
claim s t none = move s t outside
claim s t (some i) = elim (get_elem? s.workers i) [
  | none ↦ move s t outside
  | some w ↦ move (at_work s i (record w { is_idle = false })) t (unparks i)
]

-- The loop of `notifyIdleWorker` with a mask that it has read.
abbrev pub with_mask : System → ℕ → List Bool → System
with_mask s t mask = elim (lowest mask) [
  | none ↦ move s t outside
  | some i ↦ move s t (claims mask)
]

-- `handOffTo`, whose `unparkWorker` without a Driver is the unpark of the worker's parker; its hint
-- `handoffWake` only ends the back-off of spinning.
abbrev pub unpark : System → ℕ → ℕ → System
unpark s t i = elim (get_elem? s.workers i) [
  | none ↦ move s t outside
  | some w ↦ move (at_work s i (record w { token = true })) t outside
]

-- `inject` and the `notifyIdleWorker` in it; `keeper` is the timekeeper that it sees.
pub run_producer : System → ℕ → Option ℕ → Producer → System
run_producer s t keeper outside = s
run_producer s t keeper pushes = move s t commits
run_producer s t keeper commits = move (record s { injected = s.injected + 1 }) t asks
run_producer s t keeper asks = if ltb 0 s.searching then move s t outside else move s t reads
run_producer s t keeper reads = with_mask s t (idle_mask s.workers)
run_producer s t keeper (claims mask) =
    if same_mask mask (idle_mask s.workers)
    then claim s t (candidate mask keeper)
    else with_mask s t (idle_mask s.workers)
run_producer s t keeper (unparks i) = unpark s t i
