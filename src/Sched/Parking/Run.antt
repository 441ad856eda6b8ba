-- ===== src/Sched/Parking/Run.antt =====
-- The histories of a task: what the task, the workers and the threads do next.
use stackfull.Base.{
  ℕ, ◌-◌, Bool, true, false, none, some, List, [], ◌∷◌, ◌==◌, if◌then◌else◌, get_elem?, replicate,
}
use stackfull.Sched.Parking.{
  System, Runner, on_worker, yields, completes, away, Point, outside, returned, pins, reap_pins,
  tries, raw, running, go, resume, park, run_runner, run_point, after_look,
}

pub data Event : Type 0 where
  -- A worker takes the task from its queue. The task, on a worker, parks, yields, returns, or sets or
  -- drops its guards; it makes its next access.
  takes task_parks task_yields task_returns task_moves : Event
  guards : Bool → Event
  -- A thread wakes by a token, wakes all, or reaps; makes its next access; or has its weak
  -- compare-exchange fail for no reason.
  wakes : ℕ → ℕ → Event
  wakes_all reaps runs fails : ℕ → Event

-- What the task does when it is on a worker.
abbrev pub when_running : System → Runner → System → System
when_running s on_worker next = next
when_running s r next = s

-- A call begins on a thread that is in none.
abbrev pub begin : System → ℕ → Point → Point → System
begin s t call outside = go s t call
begin s t call (returned woke) = go s t call
begin s t call p = s

abbrev pub fail : System → ℕ → Point → System
fail s t (tries seen) = after_look s t s.park_state
fail s t p = s

abbrev pub at_point : System → ℕ → (Point → System) → System
at_point s t f = elim (get_elem? s.threads t) [ none ↦ s | some p ↦ f p ]

unfoldable pub advance : System → Event → System
advance s takes = if s.queued == 0 then s else resume (record s { queued = s.queued - 1 })
advance s task_parks = when_running s s.runner (park s)
advance s task_yields = when_running s s.runner (record s { runner = yields })
advance s task_returns = when_running s s.runner (record s { runner = completes })
advance s task_moves = run_runner s s.runner
advance s (guards b) = when_running s s.runner (record s { is_shielded = b })
advance s (wakes t generation) = at_point s t (begin s t (pins (some generation)))
advance s (wakes_all t) = at_point s t (begin s t (pins none))
advance s (reaps t) = at_point s t (begin s t reap_pins)
advance s (runs t) = at_point s t (run_point s t)
advance s (fails t) = at_point s t (fail s t)

unfoldable pub history : System → List Event → System
history s [] = s
history s (e ∷ es) = history (advance s e) es

-- A task that was just scheduled for the first time, in a slot of this generation, and `k` threads.
abbrev pub spawned : ℕ → ℕ → System
spawned generation k = record {
  park_state = raw running;
  runner = away;
  queued = 1;
  has_task = true;
  generation = generation;
  pin_count = 0;
  is_shielded = false;
  threads = replicate k outside;
  in_park = false;
  owed = false;
  collided = false;
}
