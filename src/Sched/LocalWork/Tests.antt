-- ===== src/Sched/LocalWork/Tests.antt =====
-- A bounded list as run queue, and the theorems at a worker with it.
use stackfull.Base.{
  ℕ, ◌+◌, ◌≡◌, refl, sym, ◌↔◌, Bool, true, false, not, Option, none, some, List, [], ◌∷◌, ◌++◌,
  arith, ltb, if◌then◌else◌, length,
}
use stackfull.Sched.LocalWork.{
  LocalQueue, IsFifo, Worker, is_nil, schedule, on_task_yielded, take_local, place_gathered,
}
use mathlib.Core.List.{append-nil}
use stackfull.Sched.LocalWork.Conserve.{weigh, weight}
use stackfull.Sched.LocalWork.Place.{work_conserved}
use stackfull.Sched.LocalWork.Fair.{Served, head_is_served}

abbrev list_pop : List ℕ → Option ℕ × List ℕ
list_pop [] = (none, [])
list_pop (task ∷ tasks) = (some task, tasks)

abbrev push_if : Bool → List ℕ → ℕ → Bool × List ℕ
push_if has_room l task = if has_room then (true, l ++ task ∷ []) else (false, l)

abbrev list_push : List ℕ → ℕ → Bool × List ℕ
list_push l task = push_if (ltb (length l) 2) l task

-- Two entries at most, which are one block.
abbrev two_entries : LocalQueue
two_entries = record {
  Queue = List ℕ;
  contents = λ l. l;
  push = list_push;
  pop = list_pop;
  pop_block = λ l. (l, []);
  has_entries = λ l. not (is_nil l);
  has_stealers = λ l. false;
}

two_entries-IsFifo : IsFifo two_entries
two_entries-IsFifo = record {
  push_keeps = λ l task. pushes l task (ltb (length l) 2);
  pop_none = pops_none;
  pop_some = pops_some;
  block_keeps = λ l. sym (append-nil l);
  entries_lem = entries;
}
  where
    pushes :
        (l : List ℕ) (task : ℕ) (b : Bool)
        → (push_if b l task).1 ≡ (if (push_if b l task).0 then l ++ task ∷ [] else l)
    pushes l task true = refl
    pushes l task false = refl

    pops_none : (l : List ℕ) → (list_pop l).0 ≡ none → (l ≡ []) × ((list_pop l).1 ≡ [])
    pops_none [] e = (refl, refl)
    pops_none (task ∷ tasks) e = cc

    pops_some : (l : List ℕ) (task : ℕ) → (list_pop l).0 ≡ some task → l ≡ task ∷ (list_pop l).1
    pops_some [] task e = cc
    pops_some (other ∷ tasks) task e = cc

    entries : (l : List ℕ) → (not (is_nil l) ≡ false) ↔ (l ≡ [])
    entries [] = (λ _. refl, λ _. refl)
    entries (task ∷ tasks) = ground arith

-- The queue is full, the slot is free, and task 4 waits in the inbox.
abbrev full_worker : Worker two_entries
full_worker = record {
  lifo_slot = none;
  lifo_streak = 0;
  local = 1 ∷ 2 ∷ [];
  inbox = 4 ∷ [];
  gathered = 8 ∷ 9 ∷ [];
  is_gathering = false;
  injected = [];
  sent = [];
  notices = 0;
}

work_conserved_example :
    let q = two_entries in
    let w = full_worker in
    let f : ℕ → ℕ = λ task. task in
    (weight q f (schedule q w 0 false none 7) ≡ weight q f w + f 7)
    × (weight q f (on_task_yielded q w 0 none 7) ≡ weight q f w + f 7)
    × (let (taken, u) = take_local q w in weigh f taken + weight q f u ≡ weight q f w)
    × (let (kept, u) = place_gathered q w true false in weigh f kept + weight q f u ≡ weight q f w)
work_conserved_example =
    work_conserved two_entries two_entries-IsFifo full_worker 0 true false none 7 (λ task. task)

-- The tasks that run wake one, none, two and one.
abbrev four_turns : List (List ℕ)
four_turns = (10 ∷ []) ∷ [] ∷ (11 ∷ 12 ∷ []) ∷ (13 ∷ []) ∷ []

head_is_served_example : Served two_entries 1 full_worker four_turns 3
head_is_served_example =
    head_is_served two_entries two_entries-IsFifo full_worker four_turns 1 (2 ∷ []) refl
      (omega arith)
