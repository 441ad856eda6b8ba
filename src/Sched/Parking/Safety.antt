-- ===== src/Sched/Parking/Safety.antt =====
-- What holds of a task after any history of its own steps and of the threads that wake and reap it.
use stackfull.Base.{
  ℕ, zero, suc, ◌+◌, ◌^◌, ◌<◌, ◌≡◌, refl, ◌⊎◌, Bool, true, false, Option, none, some, List, [], ◌∷◌,
  arith, ◌==◌, if◌then◌else◌, get_elem?, replicate, sum_by, sum_by-replicate,
}
use stackfull.Sched.Parking.{
  tries, System, Runner, on_worker, freed, Point, outside, pins, reap_pins, returned, looks, stores,
  schedules, claims, shields, puts_back, reap_stores, reap_schedules, unwinds, raw, parked,
  notified, done,
}
use stackfull.Sched.Parking.Run.{
  begin, at_point, when_running, Event, takes, task_parks, task_yields, task_returns, task_moves,
  guards, wakes, wakes_all, reaps, runs, fails, advance, history, spawned,
}
use stackfull.Sched.Parking.Weight.{
  held, holding, pinning, reading, late_runner, late, misled, one, sums, stages, least,
}
use stackfull.Sched.Parking.Invariant.{Inv}
use stackfull.Sched.Parking.Task.{runner-Inv}
use stackfull.Sched.Parking.Threads.{facts, run_point-Inv, fail-Inv}

module _ (s : System) (t : ℕ) (call : Point) where
  -- A call of which the thread has made no access yet.
  abbrev IsFresh : Type 0
  IsFresh =
      (holding call ≡ 0)
      × (pinning call ≡ 0)
      × (reading call ≡ 0)
      × (late call ≡ 0)
      × (misled call ≡ 0)

  begin-Inv :
      IsFresh → (p : Point) → Inv s → get_elem? s.threads t ≡ some p → Inv (begin s t call p)
  begin-Inv fresh outside h e = ground (arith, facts s t outside call e)
  begin-Inv fresh (returned woke) h e = ground (arith, facts s t (returned woke) call e)
  begin-Inv fresh p h e = ground arith

at_point-Inv :
    (s : System) (t : ℕ) (f : Point → System)
    → Inv s
    → ((p : Point) → get_elem? s.threads t ≡ some p → Inv (f p))
    → Inv (at_point s t f)
at_point-Inv s t f h step = go (get_elem? s.threads t) refl
  where
    go : (o : Option Point) → get_elem? s.threads t ≡ o → Inv (elim o [ none ↦ s | some p ↦ f p ])
    go none e = h
    go (some p) e = step p e

when_running-Inv :
    (s : System) (r : Runner) (next : System)
    → Inv s
    → s.runner ≡ r
    → (s.runner ≡ on_worker → Inv next)
    → Inv (when_running s r next)
when_running-Inv s on_worker next h at step = step at
when_running-Inv s r next h at step = ground arith

advance-Inv : (s : System) (e : Event) → Inv s → Inv (advance s e)
unfolding advance
advance-Inv s takes h = ground (arith, sums s.threads, stages s.runner)
advance-Inv s task_parks h =
    when_running-Inv s s.runner _ h refl (λ at. ground (arith, sums s.threads))
advance-Inv s task_yields h =
    when_running-Inv s s.runner _ h refl (λ at. ground (arith, sums s.threads))
advance-Inv s task_returns h =
    when_running-Inv s s.runner _ h refl (λ at. ground (arith, sums s.threads))
advance-Inv s (guards b) h = when_running-Inv s s.runner _ h refl (λ at. ground arith)
advance-Inv s task_moves h = runner-Inv s s.runner h refl
advance-Inv s (wakes t g) h =
    at_point-Inv s t _ h (λ p. begin-Inv s t (pins (some g)) (refl, refl, refl, refl, refl) p h)
advance-Inv s (wakes_all t) h =
    at_point-Inv s t _ h (λ p. begin-Inv s t (pins none) (refl, refl, refl, refl, refl) p h)
advance-Inv s (reaps t) h =
    at_point-Inv s t _ h (λ p. begin-Inv s t reap_pins (refl, refl, refl, refl, refl) p h)
advance-Inv s (runs t) h = at_point-Inv s t _ h (λ p. run_point-Inv s t p h)
advance-Inv s (fails t) h = at_point-Inv s t _ h (λ p. fail-Inv s t p h)

history-Inv : (s : System) (es : List Event) → Inv s → Inv (history s es)
unfolding history
history-Inv s [] h = h
history-Inv s (e ∷ es) h = history-Inv (advance s e) es (advance-Inv s e h)

sum_by-one : (k : ℕ) → sum_by one (replicate k outside) ≡ k
sum_by-one zero = refl
sum_by-one (suc k) = omega (arith, sum_by-one k)

spawned-Inv : (g k : ℕ) → k < 2 ^ 32 → Inv (spawned g k)
spawned-Inv g k few =
    let none_of = λ (f : Point → ℕ) (e : f outside ≡ 0). sum_by-replicate f outside e k in
    let a = none_of holding refl in
    let b = none_of pinning refl in
    let c = none_of reading refl in
    let d = none_of late refl in let e = none_of misled refl in ground (arith, sum_by-one k)

pub reached-Inv : (g k : ℕ) (es : List Event) → k < 2 ^ 32 → Inv (history (spawned g k) es)
reached-Inv g k es few = history-Inv (spawned g k) es (spawned-Inv g k few)

-- What a freed task leaves.
abbrev Quiet : System → Type 0
Quiet s =
    (s.has_task ≡ false)
    × (s.queued ≡ 0)
    × (sum_by reading s.threads ≡ 0)
    × (sum_by holding s.threads ≡ 0)

quiet : (s : System) → Inv s → s.runner ≡ freed → Quiet s
quiet s h at = ground (arith, h.untouched, h.exclusive, h.listed)

-- Whatever the task does, and whatever fewer than 2^32 threads that wake and reap it do, in whatever
-- order: no worker has resumed the task while it was not switched out, and a task that is parked is
-- nobody's, while any other one is in just one place: it runs itself, or is in a run queue once, or is
-- held by one thread that took it out of the parked state.
pub scheduled_once :
    (g k : ℕ) (es : List Event)
    → k < 2 ^ 32
    → let s = history (spawned g k) es in
      (s.collided ≡ false)
      × (held s.runner + s.queued + sum_by holding s.threads
          ≡ (if s.park_state == raw parked then 0 else 1))
scheduled_once g k es few = let h = reached-Inv g k es few in (h.safe, h.exclusive)

-- After any such history, when a wake has come since `park` last returned: the token is there, so that
-- the next `park` does not sleep, or the task is done, or it is inside `park` and on its way to a run
-- queue, or in one, just once.
pub no_lost_wake :
    (g k : ℕ) (es : List Event)
    → k < 2 ^ 32
    → let s = history (spawned g k) es in
      s.owed ≡ true
      → (s.park_state ≡ raw notified)
        ⊎ ((s.park_state ≡ raw done)
            ⊎ ((s.in_park ≡ true) × (late_runner s.runner + s.queued + sum_by late s.threads ≡ 1)))
no_lost_wake g k es few owed = let h = reached-Inv g k es few in ground (arith, h.woken)

-- Whether the next access of a thread is to the task itself.
abbrev pub uses_task : Point → Bool
uses_task looks = true
uses_task (tries seen) = true
uses_task stores = true
uses_task schedules = true
uses_task claims = true
uses_task shields = true
uses_task puts_back = true
uses_task reap_stores = true
uses_task reap_schedules = true
uses_task unwinds = true
uses_task p = false

uses_task-weighs : (p : Point) → reading p ≡ 0 → holding p ≡ 0 → uses_task p ≡ false
uses_task-weighs p r h = ground arith

-- After any such history, once the task is freed: it is not listed in its slot, it is in no run queue,
-- and no thread is before an access to it, also not one that loaded its address before.
pub no_use_after_free :
    (g k : ℕ) (es : List Event)
    → k < 2 ^ 32
    → let s = history (spawned g k) es in
      s.runner ≡ freed
      → (s.has_task ≡ false)
        × (s.queued ≡ 0)
        × ((t : ℕ) (p : Point) → get_elem? s.threads t ≡ some p → uses_task p ≡ false)
no_use_after_free g k es few at =
    let h = reached-Inv g k es few in
    let s = history (spawned g k) es in
    let (a, b, c, d) = quiet s h at in
    (
      a,
      b,
      λ t p e.
          uses_task-weighs p (omega (arith, c, least s t p e)) (omega (arith, d, least s t p e)),
    )
