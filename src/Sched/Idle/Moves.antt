-- ===== src/Sched/Idle/Moves.antt =====
-- The steps of the workers.
use stackfull.Base.{
  ℕ, ◌≤◌, ◌≡◌, refl, sym, ap, ◌∙◌, ◌⊎◌, inl, inr, Bool, true, false, ◌&&◌, ◌||◌, some, arith, ltb,
  ◌==◌, if-cases, get_elem?, le-sum_by,
}
use mathlib.Core.Bool.{false≢true}
use stackfull.Sched.Idle.{
  is_committing, Point, busy, seeks, idles, spins, spin_looks, marks, looks_again, unmarks, drains,
  asleep, clears, searches, retries, steps_down, spin_ends, Worker, System, pop, go, run_worker,
  turn, find, limit, k_max_spinners,
}
use stackfull.Sched.Idle.Awake.{
  stepped_beside, committing_will, waits, seeker, seeking, awake, IsOwed, Inv, stepped,
}

no_task : (a b c : Bool) → a || b && c ≡ true → (a ≡ true) ⊎ (c ≡ true)
no_task a b c e = ground arith

module _ (gives_up : Bool) (s : System) (i : ℕ) (w : Worker) (h : Inv s)
    (at : get_elem? s.workers i ≡ some w) where
  least : seeker w.point ≤ s.searching
  least = omega (arith, h.counted, le-sum_by seeking s.workers i w at)

  -- A pop: with a task or without, the worker stays a searcher if it was one.
  pop-Inv :
      (found not_found : Point)
      → (seeker found ≡ seeker w.point) × (seeker not_found ≡ seeker w.point)
      → (awake (record w { point = found }) ≡ 1) × IsOwed s.producers i (record w { point = found })
      → IsOwed s.producers i (record w { point = not_found })
      → Inv (pop gives_up s i w found not_found)
  pop-Inv found not_found (a, b) (up, owed) owed' =
      if-cases Inv (s.injected == 0 || gives_up && is_committing s.producers)
        (λ nothing.
          stepped_beside s i w (record w { point = not_found }) s.injected s.searching h at
            (omega (arith, b))
            (elim (no_task (s.injected == 0) gives_up (is_committing s.producers) nothing) [
              | inl empty ↦ inl (ground arith)
              | inr pushing ↦ inr (inl (committing_will s.producers pushing))
            ])
            owed')
        (λ more.
          stepped s i w (record w { point = found }) _ s.searching h at (omega (arith, a)) (inr up)
            owed)

  pub run_worker-Inv : (p : Point) → w.point ≡ p → Inv (run_worker gives_up s i w p)
  unfolding run_worker
  run_worker-Inv busy e = h
  run_worker-Inv seeks e =
      if-cases Inv (ltb s.searching (limit s))
        (λ room. stepped s i w _ _ _ h at (ground arith) (inr (ground arith)) (ground arith))
        (λ full. stepped s i w _ _ _ h at (ground arith) (inr (ground arith)) (ground arith))
  run_worker-Inv (searches true) e =
      pop-Inv (steps_down true) retries (ground arith) (ground arith) (ground arith)
  run_worker-Inv (searches false) e =
      pop-Inv busy idles (ground arith) (ground arith) (ground arith)
  run_worker-Inv retries e =
      pop-Inv (steps_down true) (steps_down false) (ground arith) (ground arith) (ground arith)
  run_worker-Inv (steps_down true) e =
      stepped s i w _ _ _ h at (ground (arith, least)) (inr refl) (ground arith)
  run_worker-Inv (steps_down false) e =
      stepped s i w _ _ _ h at (ground (arith, least)) (inr refl) (ground arith)
  run_worker-Inv idles e =
      if-cases Inv (ltb s.searching k_max_spinners)
        (λ room. stepped s i w _ _ _ h at (ground arith) (inr (ground arith)) (ground arith))
        (λ full. stepped s i w _ _ _ h at (ground arith) (inr (ground arith)) (ground arith))
  run_worker-Inv spins e =
      pop-Inv (spin_ends true) spins (ground arith) (ground arith) (ground arith)
  run_worker-Inv (spin_ends true) e =
      stepped s i w _ _ _ h at (ground (arith, least)) (inr refl) (ground arith)
  run_worker-Inv (spin_ends false) e =
      stepped s i w _ _ _ h at (ground (arith, least)) (inr refl) (ground arith)
  run_worker-Inv spin_looks e = pop-Inv busy marks (ground arith) (ground arith) (ground arith)
  run_worker-Inv marks e = stepped s i w _ _ _ h at (ground arith) (inr refl) (ground arith)
  run_worker-Inv looks_again e =
      pop-Inv unmarks asleep (ground arith) (ground arith) (ground (arith, h.owed i w at))
  run_worker-Inv unmarks e =
      stepped s i w _ _ _ h at (ground arith) (inr (ground arith)) (ground arith)
  run_worker-Inv drains e = stepped s i w _ _ _ h at (ground arith) (inr refl) (ground arith)
  run_worker-Inv asleep e =
      if-cases Inv w.token
        (λ woken. stepped s i w _ _ _ h at (ground arith) (inr refl) (ground arith)) (λ sleeps. h)
  run_worker-Inv clears e = stepped s i w _ _ _ h at (ground arith) (inr refl) (ground arith)

module _ (s : System) (i : ℕ) (w : Worker) (h : Inv s) (at : get_elem? s.workers i ≡ some w) where
  up_lem : (p : Point) → waits p ≡ false → awake (record w { point = p }) ≡ 1
  up_lem p up = ground arith

  -- A step to a point outside the sleep that leaves the counts alone.
  moves_on : (p : Point) → seeker p ≡ seeker w.point → waits p ≡ false → Inv (go s i w p)
  moves_on p same up =
      stepped s i w (record w { point = p }) s.injected s.searching h at (omega (arith, same))
        (inr (up_lem p up)) (λ waiting. absurd (false≢true (sym up ∙ waiting)))

  pub turn-Inv : (p : Point) → w.point ≡ p → Inv (turn s i w p)
  turn-Inv busy e = moves_on seeks (ap seeker (sym e)) refl
  turn-Inv idles e = moves_on marks (ap seeker (sym e)) refl
  turn-Inv spins e = moves_on (spin_ends false) (ap seeker (sym e)) refl
  turn-Inv asleep e = moves_on clears (ap seeker (sym e)) refl
  turn-Inv p e = h

  pub find-Inv : (p : Point) → w.point ≡ p → Inv (find s i w p)
  find-Inv retries e = moves_on (steps_down true) (ap seeker (sym e)) refl
  find-Inv spins e = moves_on (spin_ends true) (ap seeker (sym e)) refl
  find-Inv spin_looks e = moves_on busy (ap seeker (sym e)) refl
  find-Inv looks_again e = moves_on unmarks (ap seeker (sym e)) refl
  find-Inv p e = h
