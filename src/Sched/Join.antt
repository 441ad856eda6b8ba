-- ===== src/Sched/Join.antt =====
-- Joining a task: sched/src/JoinHandle.cpp, sched/include/stackfull/sched/detail/JoinState.h, and the
-- end of a joinable task in sched/src/SchedulerCore.cpp, `finishJoin`. A step is one access of the
-- finishing task or of the owner of the handle to the state that they share.
mod Shared
mod Outcome
mod Tests
use stackfull.Base.{
  ℕ, ◌+◌, ◌-◌, Bool, true, false, Option, none, List, [], ◌∷◌, ◌==◌, if◌then◌else◌,
}

pub data WaiterKind : Type 0 where
  no_waiter task_waiter thread_waiter : WaiterKind

-- Where the finishing task stands: before it hands over the exception of its body, before each
-- access of `finishJoin`, and at the end.
pub data Finisher : Type 0 where
  reports stores_done reads_kind : Finisher
  wakes : WaiterKind → Finisher
  releases finished : Finisher

-- Where the owner of the handle stands: with the handle; before each access of `join`, in the wait of
-- a task or a thread; before it gives its share up, in `join` or `detach`; and at the end.
pub data Owner : Type 0 where
  holds asks registers checks blocked takes : Owner
  detaches joined : Option ℕ → Owner
  drops dropped : Owner

-- The shared state, the two parties, `woken`, the token of the waiter's park, and `freed`, how often
-- the state was deleted.
pub record JoinState : Type 0 where
  pub refs : ℕ
  pub is_done : Bool
  pub waiter_kind : WaiterKind
  pub exception : Option ℕ
  pub finisher : Finisher
  pub owner : Owner
  pub woken : Bool
  pub freed : ℕ

-- `release`: the last one deletes the state.
pub release : JoinState → JoinState
release s = record s { refs = s.refs - 1; freed = if s.refs == 1 then s.freed + 1 else s.freed }

abbrev pub wake : JoinState → WaiterKind → JoinState
wake s no_waiter = s
wake s task_waiter = record s { woken = true }
wake s thread_waiter = record s { woken = true }

pub data Event : Type 0 where
  -- A party's next access, a park that returns for no reason, the owner's call of `join`, and its
  -- `detach`, which is also what an assignment to the handle does.
  finishes proceeds spurious joins lets_go : Event

abbrev pub stir : JoinState → Owner → JoinState
stir s blocked = record s { owner = checks }
stir s p = s

abbrev pub begin : JoinState → Owner → Owner → JoinState
begin s call holds = record s { owner = call }
begin s call p = s

-- The body ended with `thrown`; the owner is itself a task, or a thread.
module _ (thrown : Option ℕ) (is_task : Bool) where
  pub run_finisher : JoinState → Finisher → JoinState
  run_finisher s reports = record s { exception = thrown; finisher = stores_done }
  run_finisher s stores_done = record s { is_done = true; finisher = reads_kind }
  run_finisher s reads_kind = record s { finisher = wakes s.waiter_kind }
  run_finisher s (wakes kind) = wake (record s { finisher = releases }) kind
  run_finisher s releases = release (record s { finisher = finished })
  run_finisher s finished = s

  pub run_owner : JoinState → Owner → JoinState
  run_owner s holds = s
  run_owner s asks = record s { owner = if s.is_done then takes else registers }
  run_owner s registers = record s {
    waiter_kind = if is_task then task_waiter else thread_waiter;
    owner = checks;
  }
  run_owner s checks = record s { owner = if s.is_done then takes else blocked }
  run_owner s blocked = if s.woken then record s { woken = false; owner = checks } else s
  run_owner s takes = record s { exception = none; owner = detaches s.exception }
  run_owner s (detaches e) = release (record s { owner = joined e })
  run_owner s (joined e) = s
  run_owner s drops = release (record s { owner = dropped })
  run_owner s dropped = s

  pub advance : JoinState → Event → JoinState
  advance s finishes = run_finisher s s.finisher
  advance s proceeds = run_owner s s.owner
  advance s spurious = stir s s.owner
  advance s joins = begin s asks s.owner
  advance s lets_go = begin s drops s.owner

  pub history : JoinState → List Event → JoinState
  history s [] = s
  history s (e ∷ es) = history (advance s e) es

-- A joinable task that has just been spawned.
abbrev pub spawned : JoinState
spawned = record {
  refs = 2;
  is_done = false;
  waiter_kind = no_waiter;
  exception = none;
  finisher = reports;
  owner = holds;
  woken = false;
  freed = 0;
}
