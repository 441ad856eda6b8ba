-- ===== src/Sched/Parking/Carry.antt =====
-- The steps by which a worker or a thread that has the task brings it back to a worker.
use stackfull.Base.{
  ℕ, zero, suc, ◌≤◌, ◌<◌, ◌≡◌, refl, sym, ap, subst, true, false, none, some, arith, ◌==◌, if-cases,
  get_elem?, set, get_elem?-set,
}
use stackfull.Sched.Parking.{
  notified, raw, on_worker, stores, schedules, reap_unpins, shields, puts_back, reap_stores,
  reap_schedules, unwinds, Point, System, run_point, running,
}
use stackfull.Sched.Parking.Run.{Event, takes, task_parks, task_moves, runs, advance}
use stackfull.Sched.Parking.Weight.{held, holding, late}

-- Back on a worker, with nothing owed.
abbrev pub IsBack : System → Type 0
IsBack s = (s.runner ≡ on_worker) × (s.owed ≡ false)

-- The steps of the party that has the task: a worker takes it from its queue; the task itself moves,
-- or, on a worker, parks; or the thread that holds it makes its next access.
abbrev pub IsOwn : System → Event → Type 0
IsOwn s takes = 0 < s.queued
IsOwn s task_moves = held s.runner ≡ 1
IsOwn s task_parks = s.runner ≡ on_worker
IsOwn s (runs t) = (p : Point) × (get_elem? s.threads t ≡ some p) × (holding p ≡ 1)
IsOwn s e = ⊥

-- At most so many such steps bring the task back.
pub data Carried : System → ℕ → Type 0 where
  back : (s : System) (n : ℕ) → IsBack s → Carried s n
  step : (s : System) (e : Event) (n : ℕ) → IsOwn s e → Carried (advance s e) n → Carried s (suc n)

pub more : (s : System) (n m : ℕ) → n ≤ m → Carried s n → Carried s m
more s n m le (back _ _ here) = back s m here
more s _ zero le (step _ e n own rest) = absurd (omega arith)
more s _ (suc m) le (step _ e n own rest) =
    step s e m own (more (advance s e) n m (omega arith) rest)

takes-IsBack : (s : System) → s.in_park ≡ true → 0 < s.queued → IsBack (advance s takes)
unfolding advance
takes-IsBack s inside in_queue = ground arith

-- A worker takes the task inside `park`.
pub taken : (s : System) → s.in_park ≡ true → 0 < s.queued → Carried s 1
taken s inside in_queue = step s takes 0 in_queue (back _ 0 (takes-IsBack s inside in_queue))

-- A thread's access, of which the next state is known.
runs_lem :
    (s : System) (t : ℕ) (p : Point)
    → get_elem? s.threads t ≡ some p
    → advance s (runs t) ≡ run_point s t p
unfolding advance
runs_lem s t p e = ap (λ o. elim o as (λ _. System) [ none ↦ s | some q ↦ run_point s t q ]) e

thread_step :
    (s : System) (t n : ℕ) (p : Point)
    → get_elem? s.threads t ≡ some p
    → holding p ≡ 1
    → Carried (run_point s t p) n
    → Carried s (suc n)
thread_step s t n p e has rest =
    step s (runs t) n (p, e, has) (subst (λ u. Carried u n) (sym (runs_lem s t p e)) rest)

-- The threads that have the task, which is inside `park`.
module _ (s : System) (t : ℕ) (inside : s.in_park ≡ true) where
  schedules_back : get_elem? s.threads t ≡ some schedules → Carried s 2
  unfolding run_point
  schedules_back at = thread_step s t 1 schedules at refl (taken _ inside (omega arith))

  reap_schedules_back : get_elem? s.threads t ≡ some reap_schedules → Carried s 2
  unfolding run_point
  reap_schedules_back at = thread_step s t 1 reap_schedules at refl (taken _ inside (omega arith))

  unwinds_back : get_elem? s.threads t ≡ some unwinds → Carried s 1
  unfolding run_point
  unwinds_back at = thread_step s t 0 unwinds at refl (back _ 0 (ground arith))

stores_back :
    (s : System) (t : ℕ) → s.in_park ≡ true → get_elem? s.threads t ≡ some stores → Carried s 3
unfolding run_point
stores_back s t inside at =
    thread_step s t 2 stores at refl
      (schedules_back (run_point s t stores) t inside (get_elem?-set s.threads t _ _ at))

reap_stores_back :
    (s : System) (t : ℕ) → s.in_park ≡ true → get_elem? s.threads t ≡ some reap_stores → Carried s 3
unfolding run_point
reap_stores_back s t inside at =
    thread_step s t 2 reap_stores at refl
      (reap_schedules_back (run_point s t reap_stores) t inside (get_elem?-set s.threads t _ _ at))

puts_back_lem :
    (s : System) (t : ℕ)
    → s.in_park ≡ true
    → s.park_state ≡ raw notified
    → get_elem? s.threads t ≡ some puts_back
    → Carried s 4
unfolding run_point
puts_back_lem s t inside token at = thread_step s t 3 puts_back at refl (
    if-cases (λ u. Carried u 3) (s.park_state == raw running) (λ idle. absurd (ground arith))
      (λ woken.
        reap_stores_back (record s { threads = set s.threads t reap_stores }) t inside
          (get_elem?-set s.threads t _ _ at)))

shields_back :
    (s : System) (t : ℕ)
    → s.in_park ≡ true
    → s.park_state ≡ raw notified
    → get_elem? s.threads t ≡ some shields
    → Carried s 5
unfolding run_point
shields_back s t inside token at = thread_step s t 4 shields at refl (
    if-cases (λ u. Carried u 4) s.is_shielded
      (λ kept.
        puts_back_lem (record s { threads = set s.threads t puts_back }) t inside token
          (get_elem?-set s.threads t _ _ at))
      (λ free. more _ 1 4 (omega arith) (
        unwinds_back (record s { threads = set s.threads t unwinds }) t inside
          (get_elem?-set s.threads t _ _ at))))

reap_unpins_back :
    (s : System) (t : ℕ)
    → s.in_park ≡ true
    → s.park_state ≡ raw notified
    → get_elem? s.threads t ≡ some (reap_unpins true)
    → Carried s 6
unfolding run_point
reap_unpins_back s t inside token at = thread_step s t 5 (reap_unpins true) at refl (
    shields_back (run_point s t (reap_unpins true)) t inside token
      (get_elem?-set s.threads t _ _ at))

-- A thread that is late, or has the task beside a token.
pub late_thread :
    (s : System) (t : ℕ) (p : Point)
    → get_elem? s.threads t ≡ some p
    → 0 < late p
    → s.in_park ≡ true
    → Carried s 3
late_thread s t stores at pos inside = stores_back s t inside at
late_thread s t schedules at pos inside = more s 2 3 (omega arith) (schedules_back s t inside at)
late_thread s t reap_stores at pos inside = reap_stores_back s t inside at
late_thread s t reap_schedules at pos inside =
    more s 2 3 (omega arith) (reap_schedules_back s t inside at)
late_thread s t p at pos inside = absurd (ground arith)

pub holding_thread :
    (s : System) (t : ℕ) (p : Point)
    → get_elem? s.threads t ≡ some p
    → 0 < holding p
    → s.in_park ≡ true
    → s.park_state ≡ raw notified
    → Carried s 6
holding_thread s t (reap_unpins true) at pos inside token = reap_unpins_back s t inside token at
holding_thread s t shields at pos inside token =
    more s 5 6 (omega arith) (shields_back s t inside token at)
holding_thread s t puts_back at pos inside token =
    more s 4 6 (omega arith) (puts_back_lem s t inside token at)
holding_thread s t unwinds at pos inside token =
    more s 1 6 (omega arith) (unwinds_back s t inside at)
holding_thread s t p at pos inside token =
    more s 3 6 (omega arith) (late_thread s t p at (ground arith) inside)
