-- ===== src/Sched/Parking/Progress.antt =====
-- A woken task runs again: its own steps, and whoever has it.
use stackfull.Base.{
  ℕ, suc, ◌+◌, ◌^◌, ◌<◌, ◌≡◌, refl, sym, ap, subst, ◌∙◌, ◌⊎◌, inl, inr, true, List, arith, ◌==◌,
  if-cases, sum_by, sum_by-place,
}
use stackfull.Sched.Parking.{
  notified, raw, done, on_worker, completes, consumes, parks, hook_stores, hook_schedules, yields,
  Runner, System, run_runner, park, running,
}
use stackfull.Sched.Parking.Run.{
  when_running, Event, takes, task_parks, task_moves, advance, history, spawned,
}
use stackfull.Sched.Parking.Weight.{held, holding, late_runner, late, parking, ended}
use stackfull.Sched.Parking.Invariant.{Inv}
use stackfull.Sched.Parking.Safety.{reached-Inv}
use native.Mathlib.Decide.{dec_lt}
use stackfull.Sched.Parking.Carry.{Carried, back, step, more, taken, late_thread, holding_thread}

-- The task's own accesses.
move_step :
    (s : System) (r : Runner) (n : ℕ)
    → s.runner ≡ r
    → held r ≡ 1
    → Carried (run_runner s r) n
    → Carried s (suc n)
unfolding advance
move_step s r n at has rest =
    step s task_moves n (ap held at ∙ has) (subst (λ q. Carried (run_runner s q) n) (sym at) rest)

park_step : (s : System) (n : ℕ) → s.runner ≡ on_worker → Carried (park s) n → Carried s (suc n)
unfolding advance
park_step s n at rest =
    step s task_parks n at (subst (λ q. Carried (when_running s q (park s)) n) (sym at) rest)

hook_schedules_back : (s : System) → s.runner ≡ hook_schedules → s.in_park ≡ true → Carried s 2
unfolding run_runner
hook_schedules_back s at inside =
    move_step s hook_schedules 1 at refl (taken _ inside (omega arith))

hook_stores_back : (s : System) → s.runner ≡ hook_stores → s.in_park ≡ true → Carried s 3
unfolding run_runner
hook_stores_back s at inside =
    move_step s hook_stores 2 at refl (hook_schedules_back (run_runner s hook_stores) refl inside)

-- On a worker, the next `park` consumes the token.
on_worker_back : (s : System) → s.runner ≡ on_worker → s.park_state ≡ raw notified → Carried s 2
unfolding run_runner
on_worker_back s at token = park_step s 1 at (
    if-cases (λ u. Carried u 1) (s.park_state == raw notified)
      (λ yes. move_step _ consumes 0 refl refl (back _ 0 (refl, refl)))
      (λ no. absurd (ground arith)))

queued_back : (s : System) → 0 < s.queued → s.park_state ≡ raw notified → Carried s 3
unfolding advance
queued_back s in_queue token =
    step s takes 2 in_queue (on_worker_back (advance s takes) (ground arith) (ground arith))

-- The task has itself, beside a token.
held_back :
    (s : System) (r : Runner)
    → s.runner ≡ r
    → held r ≡ 1
    → s.park_state ≡ raw notified
    → (parking r ≡ 1 → s.in_park ≡ true)
    → ended r ≡ 0
    → (r ≡ completes) ⊎ Carried s 6
unfolding run_runner
held_back s on_worker at has token inside lives =
    inr (more s 2 6 (omega arith) (on_worker_back s at token))
held_back s consumes at has token inside lives =
    inr (more s 1 6 (omega arith) (move_step s consumes 0 at refl (back _ 0 (refl, refl))))
held_back s parks at has token inside lives = inr (
    more s 4 6 (omega arith) (
      move_step s parks 3 at refl (
        if-cases (λ u. Carried u 3) (s.park_state == raw running) (λ idle. absurd (ground arith))
          (λ woken. hook_stores_back (record s { runner = hook_stores }) refl (inside refl)))))
held_back s hook_stores at has token inside lives =
    inr (more s 3 6 (omega arith) (hook_stores_back s at (inside refl)))
held_back s hook_schedules at has token inside lives =
    inr (more s 2 6 (omega arith) (hook_schedules_back s at (inside refl)))
held_back s yields at has token inside lives = inr (
    more s 4 6 (omega arith)
      (move_step s yields 3 at refl (queued_back (run_runner s yields) (omega arith) token)))
held_back s completes at has token inside lives = inl refl
held_back s r at has token inside lives = absurd (ground arith)

late_runner_back :
    (s : System) (r : Runner) → s.runner ≡ r → 0 < late_runner r → s.in_park ≡ true → Carried s 3
late_runner_back s hook_stores at pos inside = hook_stores_back s at inside
late_runner_back s hook_schedules at pos inside =
    more s 2 3 (omega arith) (hook_schedules_back s at inside)
late_runner_back s r at pos inside = absurd (ground arith)

-- On its way to a run queue, or in one.
late_back :
    (s : System)
    → s.in_park ≡ true
    → late_runner s.runner + s.queued + sum_by late s.threads ≡ 1
    → Carried s 3
late_back s inside one = elim (dec_lt 0 s.queued) [
  | yes in_queue ↦ more s 1 3 (omega arith) (taken s inside in_queue)
  | no idle ↦ elim (dec_lt 0 (sum_by late s.threads)) [
    | yes on_thread ↦
        let (t, p, at, pos) = sum_by-place late s.threads on_thread in
        late_thread s t p at pos inside
    | no on_none ↦ late_runner_back s s.runner refl (omega arith) inside
  ]
]

token_back :
    (s : System) → Inv s → s.park_state ≡ raw notified → (s.runner ≡ completes) ⊎ Carried s 6
token_back s h token =
    let one : held s.runner + s.queued + sum_by holding s.threads ≡ 1 =
      ground (arith, h.exclusive) in
    let lives : ended s.runner ≡ 0 = ground (arith, h.finished) in
    elim (dec_lt 0 s.queued) [
      | yes in_queue ↦ inr (more s 3 6 (omega arith) (queued_back s in_queue token))
      | no idle ↦ elim (dec_lt 0 (sum_by holding s.threads)) [
        | yes on_thread ↦
            let (t, p, at, pos) = sum_by-place holding s.threads on_thread in
            inr (holding_thread s t p at pos (ground (arith, h.inside)) token)
        | no on_none ↦
            held_back s s.runner refl (omega arith) token (λ e. ground (arith, h.inside)) lives
      ]
    ]

-- After any history, when a wake has come since `park` last returned and the task has neither
-- returned nor is done: at most six steps bring it back to a worker with nothing owed, `park` having
-- returned and consumed the wake. Each of them is a step of the party that has the task at that
-- moment: of a worker that takes it from its queue, of the task itself, which parks if it is on a
-- worker, or of the thread that holds it.
pub woken_runs :
    (g k : ℕ) (es : List Event)
    → k < 2 ^ 32
    → let s = history (spawned g k) es in
      s.owed ≡ true → (s.park_state ≡ raw done) ⊎ (s.runner ≡ completes) ⊎ Carried s 6
woken_runs g k es few owed =
    let s = history (spawned g k) es in
    let h = reached-Inv g k es few in
    elim h.woken [
      | inl nothing ↦ absurd (ground arith)
      | inr (inl token) ↦ inr (token_back s h token)
      | inr (inr (inl ended)) ↦ inl ended
      | inr (inr (inr (inside, one))) ↦
          inr (inr (more s 3 6 (omega arith) (late_back s inside one)))
    ]
