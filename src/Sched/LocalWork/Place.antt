-- ===== src/Sched/LocalWork/Place.antt =====
-- Placing tasks conserves them.
use stackfull.Base.{
  ℕ, ◌+◌, ◌≡◌, refl, ap, Bool, true, false, not, ◌&&◌, Option, none, some, List, [], ◌∷◌, arith,
  ◌==◌, if-cases, sum_by, sum_by-append,
}
use stackfull.Sched.LocalWork.{
  LocalQueue, IsFifo, Worker, is_nil, has_local_work, push_injection, inject, inject_all, relieve,
  push_local_fifo, displace, push_local_lifo, send, schedule, place_all, place_rest, place,
  place_gathered, on_task_yielded, take_local,
}
use stackfull.Sched.LocalWork.Conserve.{
  weigh, weight, push_local_fifo-weight, inject-weight, take_local-IsSplit,
}

module _ (q : LocalQueue) where
  inject_all-lifo_slot :
      (w : Worker q) (tasks : List ℕ) → (inject_all q w tasks).lifo_slot ≡ w.lifo_slot
  unfolding inject_all inject
  inject_all-lifo_slot w [] = refl
  inject_all-lifo_slot w (task ∷ tasks) = inject_all-lifo_slot (inject q w task) tasks

  relieve-lifo_slot : (w : Worker q) → (relieve q w).lifo_slot ≡ w.lifo_slot
  relieve-lifo_slot w =
      if-cases (λ (u : Worker q). u.lifo_slot ≡ w.lifo_slot) (q.has_stealers w.local) (λ busy. refl)
        (λ alone.
          inject_all-lifo_slot (record w { local = (q.pop_block w.local).1 })
            (q.pop_block w.local).0)

  keeps_slot : (w : Worker q) (task : ℕ) → (push_local_fifo q w task).lifo_slot ≡ w.lifo_slot
  unfolding push_local_fifo inject
  keeps_slot w task =
      if-cases (λ (u : Worker q). u.lifo_slot ≡ w.lifo_slot) (q.push w.local task).0 (λ room. refl)
        (λ full. relieve-lifo_slot (record w { local = (q.push w.local task).1 }))

module _ (q : LocalQueue) (fifo : IsFifo q) (f : ℕ → ℕ) where
  abbrev total : Worker q → ℕ
  total w = weight q f w

  -- One task more.
  abbrev Adds : ℕ → Worker q → Worker q → Type 0
  Adds task w u = total u ≡ total w + f task

  push_local_lifo-Adds : (w : Worker q) (task : ℕ) → Adds task w (push_local_lifo q w task)
  unfolding push_local_lifo
  push_local_lifo-Adds w task = pushed w.lifo_slot refl
    where
      pushed :
          (o : Option ℕ)
          → w.lifo_slot ≡ o
          → Adds task w (record (displace q w o) { lifo_slot = some task })
      pushed none e = omega (arith, ap (weigh f) e)
      pushed (some old) e = omega (
        arith,
        ap (weigh f) e,
        push_local_fifo-weight q fifo f w old,
        ap (weigh f) (keeps_slot q w old),
      )

  send-Adds : (w : Worker q) (me target task : ℕ) → Adds task w (send q w me target task)
  send-Adds w me target task =
      if-cases (Adds task w) (target == me)
        (λ own. omega (arith, sum_by-append f w.inbox (task ∷ [])))
        (λ other. omega (arith, sum_by-append (λ pair. f pair.1) w.sent ((target, task) ∷ [])))

  schedule-Adds :
      (w : Worker q) (me : ℕ) (has_idle : Bool) (pinned : Option ℕ) (task : ℕ)
      → Adds task w (schedule q w me has_idle pinned task)
  unfolding schedule
  schedule-Adds w me has_idle (some target) task = send-Adds w me target task
  schedule-Adds w me has_idle none task =
      if-cases (Adds task w) w.is_gathering
        (λ gathers. omega (arith, sum_by-append f w.gathered (task ∷ [])))
        (λ places.
          if-cases (Adds task w) has_idle (λ idle. inject-weight q fifo f w task)
            (λ busy. push_local_lifo-Adds w task))

  yielded-Adds :
      (w : Worker q) (me : ℕ) (pinned : Option ℕ) (task : ℕ)
      → Adds task w (on_task_yielded q w me pinned task)
  unfolding on_task_yielded
  yielded-Adds w me (some target) task = send-Adds w me target task
  yielded-Adds w me none task = push_local_fifo-weight q fifo f w task

  place_all-Adds :
      (w : Worker q) (feed : Bool) (tasks : List ℕ)
      → total (place_all q w feed tasks) ≡ total w + sum_by f tasks
  unfolding place_all
  place_all-Adds w feed [] = omega arith
  place_all-Adds w true (task ∷ tasks) = omega (
    arith,
    place_all-Adds (push_injection q w task) true tasks,
    sum_by-append f w.injected (task ∷ []),
  )
  place_all-Adds w false (task ∷ tasks) = omega (
    arith,
    place_all-Adds (push_local_fifo q w task) false tasks,
    push_local_fifo-weight q fifo f w task,
  )

  place_rest-Adds :
      (w : Worker q) (has_idle : Bool) (tasks : List ℕ)
      → total (place_rest q w has_idle tasks) ≡ total w + sum_by f tasks
  place_rest-Adds w has_idle tasks =
      if-cases (λ u. total u ≡ total w + sum_by f tasks) (has_idle && not (is_nil tasks))
        (λ fed. place_all-Adds w has_idle tasks) (λ quiet. place_all-Adds w has_idle tasks)

  place-Adds :
      (w : Worker q) (keep has_idle : Bool) (tasks : List ℕ)
      → let (kept, u) = place q w keep has_idle tasks in
        weigh f kept + total u ≡ total w + sum_by f tasks
  place-Adds w keep has_idle [] = omega arith
  place-Adds w true has_idle (task ∷ tasks) = omega (arith, place_rest-Adds w has_idle tasks)
  place-Adds w false has_idle (task ∷ []) =
      if-cases
        (λ (r : Option ℕ × Worker q). weigh f r.0 + total r.1 ≡ total w + sum_by f (task ∷ []))
        (has_local_work q w) (λ more. omega (arith, place_rest-Adds w has_idle (task ∷ [])))
        (λ lone. omega (arith, push_local_lifo-Adds w task))
  place-Adds w false has_idle (task ∷ next ∷ tasks) =
      omega (arith, place_rest-Adds w has_idle (task ∷ next ∷ tasks))

  place_gathered-IsSplit :
      (w : Worker q) (keep has_idle : Bool)
      → let (kept, u) = place_gathered q w keep has_idle in weigh f kept + total u ≡ total w
  unfolding place_gathered
  place_gathered-IsSplit w keep has_idle =
      omega (arith, place-Adds (record w { gathered = [] }) keep has_idle w.gathered)

-- Whatever the run queue does that keeps its entries in order while no thief takes any: however tasks
-- are weighed, `schedule` and the hook of a yield add just their task to those of the worker, its
-- queue and inbox, and those it has injected or sent to other workers, where the task is pinned or
-- not; `takeLocal` and `placeGathered` take just the task that they return, if any.
pub work_conserved :
    (q : LocalQueue)
    → IsFifo q
    → (w : Worker q) (me : ℕ) (flag has_idle : Bool) (pinned : Option ℕ) (task : ℕ) → (f : ℕ → ℕ)
    → (weight q f (schedule q w me has_idle pinned task) ≡ weight q f w + f task)
      × (weight q f (on_task_yielded q w me pinned task) ≡ weight q f w + f task)
      × (let (taken, u) = take_local q w in weigh f taken + weight q f u ≡ weight q f w)
      × (let (kept, u) = place_gathered q w flag has_idle in
          weigh f kept + weight q f u ≡ weight q f w)
work_conserved q fifo w me flag has_idle pinned task f = (
  schedule-Adds q fifo f w me has_idle pinned task,
  yielded-Adds q fifo f w me pinned task,
  take_local-IsSplit q fifo f w,
  place_gathered-IsSplit q fifo f w flag has_idle,
)
