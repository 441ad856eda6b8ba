-- ===== src/Sched/LocalWork.antt =====
-- The work of one worker and the placement of tasks: takeLocal, pushLocalFifo, pushLocalLifo, gather
-- and schedule in sched/include/stackfull/sched/detail/Runtime.h, placeGathered in
-- sched/src/Worker.cpp. The block-based run queue is an interface.
mod Conserve
mod Place
mod Handed
mod Fair
mod Tests
use stackfull.Base.{
  ℕ, ◌+◌, ◌%◌, ◌^◌, ◌≡◌, ◌↔◌, Bool, true, false, not, ◌&&◌, ◌||◌, Option, none, some, List, [], ◌∷◌,
  ◌++◌, ltb, ◌==◌, if◌then◌else◌,
}

-- The operations of a worker's run queue. `pop_block` takes a whole block of entries.
pub record LocalQueue : Type 1 where
  pub Queue : Type 0
  pub contents : Queue → List ℕ
  pub push : Queue → ℕ → Bool × Queue
  pub pop : Queue → Option ℕ × Queue
  pub pop_block : Queue → List ℕ × Queue
  pub has_entries : Queue → Bool
  pub has_stealers : Queue → Bool  -- producerBlockHasActiveStealers

-- What a queue does with its entries while no thief takes any.
pub record IsFifo (q : LocalQueue) : Type 0 where
  pub push_keeps :
      (l : q.Queue) (task : ℕ)
      → q.contents (q.push l task).1
        ≡ (if (q.push l task).0 then q.contents l ++ task ∷ [] else q.contents l)
  pub pop_none :
      (l : q.Queue) → (q.pop l).0 ≡ none → (q.contents l ≡ []) × (q.contents (q.pop l).1 ≡ [])
  pub pop_some :
      (l : q.Queue) (task : ℕ)
      → (q.pop l).0 ≡ some task
      → q.contents l ≡ task ∷ q.contents (q.pop l).1
  pub block_keeps : (l : q.Queue) → q.contents l ≡ (q.pop_block l).0 ++ q.contents (q.pop_block l).1
  pub entries_lem : (l : q.Queue) → (q.has_entries l ≡ false) ↔ (q.contents l ≡ [])

abbrev pub k_lifo_cap : ℕ
k_lifo_cap = 3

abbrev pub is_nil : List ℕ → Bool
is_nil [] = true
is_nil (task ∷ tasks) = false

-- A task is a number. `injected` are the tasks pushed to the injection queue, oldest first, and
-- `sent` those in the inboxes of other workers, with the worker's index; `notices` counts the calls
-- of `notifyIdleWorker`.
pub record Worker (q : LocalQueue) : Type 0 where
  pub lifo_slot : Option ℕ
  pub lifo_streak : ℕ  -- unsigned
  pub local : q.Queue
  pub inbox : List ℕ
  pub gathered : List ℕ
  pub is_gathering : Bool
  pub injected : List ℕ
  pub sent : List (ℕ × ℕ)
  pub notices : ℕ

module _ (q : LocalQueue) where
  abbrev pub is_some : Option ℕ → Bool
  is_some none = false
  is_some (some task) = true

  pub has_local_work : Worker q → Bool
  has_local_work w = is_some w.lifo_slot || q.has_entries w.local || not (is_nil w.inbox)

  -- What is left when neither the queue nor the inbox has a task.
  abbrev pub take_slot : Worker q → Option ℕ × Worker q
  take_slot w = (w.lifo_slot, record w { lifo_slot = none })

  abbrev pub take_inbox : Worker q → List ℕ → Option ℕ × Worker q
  take_inbox w [] = take_slot w
  take_inbox w (task ∷ inbox) = (some task, record w { inbox = inbox })

  abbrev pub after_pop : Worker q → Option ℕ × q.Queue → Option ℕ × Worker q
  after_pop w (some task, l) = (some task, record w { local = l })
  after_pop w (none, l) = take_inbox (record w { local = l }) w.inbox

  abbrev pub take_queue : Worker q → Option ℕ × Worker q
  take_queue w = after_pop (record w { lifo_streak = 0 }) (q.pop w.local)

  -- The slot's turn, if it may have one.
  abbrev pub take_from : Worker q → Option ℕ → Option ℕ × Worker q
  take_from w none = take_queue w
  take_from w (some task) =
      if ltb w.lifo_streak k_lifo_cap || not (q.has_entries w.local)
      then (some task, record w { lifo_slot = none; lifo_streak = (w.lifo_streak + 1) % 2 ^ 32 })
      else take_queue w

  pub take_local : Worker q → Option ℕ × Worker q
  take_local w = take_from w w.lifo_slot

  abbrev pub push_injection : Worker q → ℕ → Worker q
  push_injection w task = record w { injected = w.injected ++ task ∷ [] }

  abbrev pub notify_idle : Worker q → Worker q
  notify_idle w = record w { notices = w.notices + 1 }

  pub inject : Worker q → ℕ → Worker q
  inject w task = notify_idle (push_injection w task)

  pub inject_all : Worker q → List ℕ → Worker q
  inject_all w [] = w
  inject_all w (task ∷ tasks) = inject_all (inject w task) tasks

  -- A full queue hands a block to the injection queue, unless thieves are at it.
  abbrev pub relieve : Worker q → Worker q
  relieve w =
      if q.has_stealers w.local
      then w
      else let (batch, l) = q.pop_block w.local in inject_all (record w { local = l }) batch

  pub push_local_fifo : Worker q → ℕ → Worker q
  push_local_fifo w task =
      let (has_room, l) = q.push w.local task in
      if has_room then record w { local = l } else inject (relieve (record w { local = l })) task

  abbrev pub displace : Worker q → Option ℕ → Worker q
  displace w none = w
  displace w (some old) = push_local_fifo w old

  pub push_local_lifo : Worker q → ℕ → Worker q
  push_local_lifo w task = record (displace w w.lifo_slot) { lifo_slot = some task }

  -- A pinned task goes to the inbox of its worker.
  abbrev pub send : Worker q → ℕ → ℕ → ℕ → Worker q
  send w me target task =
      if target == me
      then record w { inbox = w.inbox ++ task ∷ [] }
      else record w { sent = w.sent ++ (target, task) ∷ [] }

  -- The batch is linked through the tasks.
  abbrev pub gather : Worker q → ℕ → Worker q
  gather w task = record w { gathered = w.gathered ++ task ∷ [] }

  -- `schedule` on worker `me`, of a task that is pinned to a worker or to none.
  pub schedule : Worker q → ℕ → Bool → Option ℕ → ℕ → Worker q
  schedule w me has_idle (some target) task = send w me target task
  schedule w me has_idle none task =
      if w.is_gathering
      then gather w task
      else if has_idle
      then inject w task
      else push_local_lifo w task

  -- The loop of `placeGathered`.
  pub place_all : Worker q → Bool → List ℕ → Worker q
  place_all w feed_peers [] = w
  place_all w feed_peers (task ∷ tasks) =
      let next = if feed_peers then push_injection w task else push_local_fifo w task in
      place_all next feed_peers tasks

  abbrev pub place_rest : Worker q → Bool → List ℕ → Worker q
  place_rest w has_idle tasks =
      let placed = place_all w has_idle tasks in
      if has_idle && not (is_nil tasks) then notify_idle placed else placed

  -- What is kept, and a lone task on a worker without other work.
  abbrev pub place : Worker q → Bool → Bool → List ℕ → Option ℕ × Worker q
  place w keep_first has_idle [] = (none, w)
  place w true has_idle (task ∷ tasks) = (some task, place_rest w has_idle tasks)
  place w false has_idle (task ∷ []) =
      if has_local_work w
      then (none, place_rest w has_idle (task ∷ []))
      else (none, push_local_lifo w task)
  place w false has_idle (task ∷ next ∷ tasks) = (none, place_rest w has_idle (task ∷ next ∷ tasks))

  pub place_gathered : Worker q → Bool → Bool → Option ℕ × Worker q
  place_gathered w keep_first has_idle =
      place (record w { gathered = [] }) keep_first has_idle w.gathered

  -- The hook of a task that yielded.
  pub on_task_yielded : Worker q → ℕ → Option ℕ → ℕ → Worker q
  on_task_yielded w me (some target) task = send w me target task
  on_task_yielded w me none task = push_local_fifo w task
