-- ===== src/Sync/WaitGroup.antt =====
-- sync/src/WaitGroup.cpp and include/stackfull/sync/WaitGroup.h: a counter, and the parties that wait
-- until it is zero. A step is one access or critical section of a party; a waiter is a number.
mod Release
mod Notify
mod Tests
use stackfull.Base.{
  ℕ, ◌+◌, ◌-◌, ◌%◌, ◌^◌, Bool, false, ◌||◌, List, [], ◌∷◌, ◌++◌, ◌==◌, if◌then◌else◌,
}
use stackfull.Sync.Channel.{Callback}
use stackfull.Io.Registration.{EnqueueResult, ready, cancelled}

-- Where a party stands: elsewhere; in `done`, before the critical section that detaches all waiters,
-- or before the notification of a chain of them; in `wait` or `waitOrEnqueue` with its waiter,
-- before the critical section; queued; or after the program was stopped by the check in `done`.
pub data Point : Type 0 where
  elsewhere releases aborted : Point
  notifies : List ℕ → Point
  registers : Callback → Point
  queued : ℕ → Point
  returned : EnqueueResult → Point

-- The counter, the queue, the parties, and the waiters that have been notified.
pub record WaitGroup : Type 0 where
  pub pending : ℕ  -- size_t
  pub waiters : List ℕ
  pub points : ℕ → Point
  pub notified : List ℕ

pub data Event : Type 0 where
  adds : ℕ → Event
  -- A party begins `done`, or a wait with its waiter; makes its next step; takes a waiter back.
  dones : ℕ → Event
  waits : ℕ → Callback → Event
  moves : ℕ → Event
  cancels : ℕ → Event

abbrev pub put : (ℕ → Point) → ℕ → Point → ℕ → Point
put ps t p u = if u == t then p else ps u

-- The loop that pops all waiters onto a chain.
abbrev pub chain_of : List ℕ → List ℕ → List ℕ
chain_of [] chain = chain
chain_of (w ∷ ws) chain = chain_of ws (w ∷ chain)

abbrev pub without : List ℕ → ℕ → List ℕ
without [] w = []
without (u ∷ us) w = let rest = without us w in if u == w then us else u ∷ rest

abbrev pub member : List ℕ → ℕ → Bool
member [] w = false
member (u ∷ us) w = u == w || member us w

abbrev pub go : WaitGroup → ℕ → Point → WaitGroup
go g t p = record g { points = put g.points t p }

pub add : WaitGroup → ℕ → WaitGroup
add g count = record g { pending = (g.pending + count) % 2 ^ 64 }

-- `fetch_sub` in `done`, which wraps around at zero and is then caught.
pub done : WaitGroup → ℕ → Point → WaitGroup
done g t elsewhere =
    let less = record g { pending = (g.pending + 2 ^ 64 - 1) % 2 ^ 64 } in
    if g.pending == 0
    then go less t aborted
    else if g.pending == 1
    then go less t releases
    else less
done g t p = g

-- The first look at the counter in `wait` and `waitOrEnqueue`.
pub wait : WaitGroup → ℕ → Callback → Point → WaitGroup
wait g t w elsewhere = go g t (if g.pending == 0 then returned ready else registers w)
wait g t w p = g

pub run_point : WaitGroup → ℕ → Point → WaitGroup
run_point g t releases = record g {
  waiters = [];
  points = put g.points t (notifies (chain_of g.waiters []));
}
run_point g t (notifies []) = go g t elsewhere
run_point g t (notifies (w ∷ ws)) = record g {
  points = put g.points t (notifies ws);
  notified = g.notified ++ w ∷ [];
}
run_point g t (registers w) =
    if w.is_cancelled
    then go g t (returned cancelled)
    else if g.pending == 0
    then go g t (returned ready)
    else record g {
      waiters = g.waiters ++ w.address ∷ [];
      points = put g.points t (queued w.address);
    }
run_point g t (queued w) = if member g.notified w then go g t (returned ready) else g
run_point g t (returned r) = go g t elsewhere
run_point g t elsewhere = g
run_point g t aborted = g

-- `cancel`, and the unwinding of a wait, for a waiter that is queued.
pub cancel : WaitGroup → ℕ → WaitGroup
cancel g w = record g { waiters = without g.waiters w }

pub advance : WaitGroup → Event → WaitGroup
advance g (adds count) = add g count
advance g (dones t) = done g t (g.points t)
advance g (waits t w) = wait g t w (g.points t)
advance g (moves t) = run_point g t (g.points t)
advance g (cancels w) = cancel g w

pub history : WaitGroup → List Event → WaitGroup
history g [] = g
history g (e ∷ es) = history (advance g e) es

abbrev pub initial : WaitGroup
initial = record { pending = 0; waiters = []; points = λ t. elsewhere; notified = [] }
