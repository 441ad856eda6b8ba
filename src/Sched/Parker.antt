-- ===== src/Sched/Parker.antt =====
-- Blocking a thread: FutexParker in sched/src/Parker.cpp, with the promises of
-- sched/include/stackfull/sched/Parker.h. A step is one access to the state, or a futex call, of the
-- one thread that parks and of any number of threads that unpark it.
mod Token
mod Tests
use stackfull.Base.{
  ℕ, ◌+◌, Bool, true, false, none, some, List, [], ◌∷◌, ◌==◌, if◌then◌else◌, get_elem?, set,
  replicate,
}

abbrev pub k_empty : ℕ
k_empty = 0

abbrev pub k_notified : ℕ
k_notified = 1

abbrev pub k_parked : ℕ
k_parked = 2

-- Where the owner stands: in no call; in `park` or `parkFor`, before the compare-exchange, before
-- the load of the loop, before the futex call, asleep in it, before the compare-exchange that gives
-- up, before the last store with what it is to return; and back.
pub data Owner : Type 0 where
  outside parks waits sleeps asleep gives_up : Owner
  consumes returned : Bool → Owner

-- Where a thread that unparks stands: before the exchange, before the futex call, and done.
pub data Unparker : Type 0 where
  idle exchanges futex_wakes : Unparker

-- The state, the owner, whether its call has a time limit, the other threads; only the theorems read
-- how often the state was set to notified, and how often a call returned true.
pub record Parker : Type 0 where
  pub state : ℕ
  pub owner : Owner
  pub is_timed : Bool
  pub unparkers : List Unparker
  pub unparked : ℕ
  pub taken : ℕ

-- A call that returns true has taken a token.
abbrev pub count_taken : Bool → ℕ → ℕ
count_taken true n = n + 1
count_taken false n = n

pub run_owner : Parker → Owner → Parker
run_owner s outside = s
run_owner s parks =
    if s.state == k_empty
    then record s { state = k_parked; owner = waits }
    else record s { owner = consumes true }
run_owner s waits = record s { owner = if s.state == k_parked then sleeps else consumes true }
run_owner s sleeps = record s { owner = if s.state == k_parked then asleep else waits }
run_owner s asleep = s
run_owner s gives_up =
    if s.state == k_parked
    then record s { state = k_empty; owner = consumes false }
    else record s { owner = consumes true }
run_owner s (consumes notified) = record s {
  state = k_empty;
  owner = returned notified;
  taken = count_taken notified s.taken;
}
run_owner s (returned notified) = s

-- A thread that sleeps in the futex call is woken.
abbrev pub rouse : Owner → Owner
rouse asleep = waits
rouse o = o

abbrev pub unpark_at : Parker → ℕ → Unparker → Parker
unpark_at s t p = record s { unparkers = set s.unparkers t p }

pub run_unparker : Parker → ℕ → Unparker → Parker
run_unparker s t idle = s
run_unparker s t exchanges =
    unpark_at (record s { state = k_notified; unparked = s.unparked + 1 }) t
      (if s.state == k_parked then futex_wakes else idle)
run_unparker s t futex_wakes = unpark_at (record s { owner = rouse s.owner }) t idle

pub data Event : Type 0 where
  -- The owner calls `park`, or `parkFor`; makes its next access; is woken from the futex call for no
  -- reason or by its time limit; and finds the limit passed.
  begins : Bool → Event
  moves stirs expires : Event
  -- A thread calls `unpark`, and makes its next access.
  unparks runs : ℕ → Event

abbrev pub begin : Parker → Bool → Owner → Parker
begin s timed outside = record s { owner = parks; is_timed = timed }
begin s timed (returned b) = record s { owner = parks; is_timed = timed }
begin s timed o = s

-- The clock is read between the load and the futex call.
abbrev pub expire : Parker → Owner → Parker
expire s sleeps = if s.is_timed then record s { owner = gives_up } else s
expire s o = s

abbrev pub call_unpark : Parker → ℕ → Unparker → Parker
call_unpark s t idle = unpark_at s t exchanges
call_unpark s t p = s

abbrev pub at_unparker : Parker → ℕ → (Unparker → Parker) → Parker
at_unparker s t f = elim (get_elem? s.unparkers t) [ none ↦ s | some p ↦ f p ]

pub advance : Parker → Event → Parker
advance s (begins timed) = begin s timed s.owner
advance s moves = run_owner s s.owner
advance s stirs = record s { owner = rouse s.owner }
advance s expires = expire s s.owner
advance s (unparks t) = at_unparker s t (call_unpark s t)
advance s (runs t) = at_unparker s t (run_unparker s t)

pub history : Parker → List Event → Parker
history s [] = s
history s (e ∷ es) = history (advance s e) es

-- A new parker, and `k` threads that may unpark it.
abbrev pub initial : ℕ → Parker
initial k = record {
  state = k_empty;
  owner = outside;
  is_timed = false;
  unparkers = replicate k idle;
  unparked = 0;
  taken = 0;
}
