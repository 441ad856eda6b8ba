-- ===== src/Sched/Idle/Found.antt =====
-- An injected task does not lie while every worker sleeps.
use stackfull.Base.{
  ℕ, zero, suc, ◌+◌, ◌≤◌, ◌<◌, ◌≡◌, refl, sym, ap, subst, ◌∙◌, ◌≢◌, ◌⊎◌, inl, inr, true, false,
  Option, none, some, List, [], ◌∷◌, arith, ltb, ne→==, if-cases, none≢some, get_elem?, set,
  replicate, length-replicate, length-set, sum_by, sum_by-set, sum_by-replicate, sum_by-place,
}
use mathlib.Core.Option.{some-injective}
use mathlib.Core.Bool.{false≢true}
use stackfull.Sched.Idle.{
  Point, Worker, Producer, outside, pushes, commits, asks, reads, claims, unparks, System,
  run_producer, move, at_work, idle_mask, same_mask, candidate, claim, unpark, busy,
}
use stackfull.Sched.Idle.Run.{
  Event, works, finds, turns, injects, notifies, begin, at_worker, at_producer, advance, history,
  started,
}
use stackfull.Sched.Idle.Awake.{
  awake, waits, seeking, notifying, waking, IsOwed, Inv, everywhere, seekers_awake, is_asleep,
}
use stackfull.Sched.Idle.Mask.{same_mask-eq}
use stackfull.Sched.Idle.Moves.{run_worker-Inv, turn-Inv, find-Inv}
use stackfull.Sched.Idle.Notify.{told, keeps, with_mask-Inv, claim-Inv}

module _ (s : System) (t i : ℕ) (h : Inv s) (at : get_elem? s.producers t ≡ some (unparks i)) where
  -- The wakes of the other workers stay on their way.
  others : (j : ℕ) → j ≢ i → waking j (unparks i) ≤ waking j outside
  others j ne = rw (ne→== i j (λ same. ne (sym same))) (omega arith)

  told_all : sum_by notifying (set s.producers t outside) ≡ sum_by notifying s.producers
  told_all = omega (arith, sum_by-set notifying s.producers t (unparks i) outside at)

  -- The token of worker `i` is set.
  given :
      (w : Worker)
      → get_elem? s.workers i ≡ some w
      → Inv (move (at_work s i (record w { token = true })) t outside)
  given w found = record {
    staffed = omega (arith, length-set s.workers i new, h.staffed);
    counted = omega (arith, sum_by-set seeking s.workers i w new found, h.counted);
    served = ground (arith, h.served, told_all, sum_by-set awake s.workers i w new found);
    owed =
        everywhere (IsOwed (set s.producers t outside)) s.workers i new
          (λ j v ne place waiting.
            keeps s t (unparks i) h at outside v j (others j ne) (h.owed j v place waiting))
          (λ waiting. inr (inl refl));
  }
    where
      new : Worker
      new = record w { token = true }

  unpark-Inv : Inv (unpark s t i)
  unpark-Inv = found (get_elem? s.workers i) refl
    where
      found :
          (o : Option Worker)
          → get_elem? s.workers i ≡ o
          → Inv (elim o as (λ _. System) [
            | none ↦ move s t outside
            | some w ↦ move (at_work s i (record w { token = true })) t outside
          ])
      found (some w) e = given w e
      found none e = record {
        staffed = h.staffed;
        counted = h.counted;
        served = ground (arith, h.served, told_all);
        owed = λ j v place waiting.
            keeps s t (unparks i) h at outside v j
              (others j (λ same. none≢some v (sym e ∙ ap (get_elem? s.workers) (sym same) ∙ place)))
              (h.owed j v place waiting);
      }

module _ (s : System) (t : ℕ) (keeper : Option ℕ) (h : Inv s) where
  producer-Inv : (p : Producer) → get_elem? s.producers t ≡ some p → Inv (run_producer s t keeper p)
  unfolding run_producer
  producer-Inv outside e = h
  producer-Inv pushes e = told s t pushes h e commits s.injected (λ i. omega arith) (inl refl)
  producer-Inv commits e = told s t commits h e asks (s.injected + 1) (λ i. omega arith) (inl refl)
  producer-Inv asks e =
      if-cases Inv (ltb 0 s.searching)
        (λ some_search.
          told s t asks h e outside s.injected (λ i. omega arith)
            (inr (ground (arith, seekers_awake s.workers, h.counted))))
        (λ none_search. told s t asks h e reads s.injected (λ i. omega arith) (inl refl))
  producer-Inv reads e = with_mask-Inv s t reads h e (λ i. refl)
  producer-Inv (claims mask) e =
      if-cases Inv (same_mask mask (idle_mask s.workers))
        (λ same.
          subst (λ m. Inv (claim s t (candidate m keeper)))
            (sym (same_mask-eq mask (idle_mask s.workers) same))
            (claim-Inv s t (claims mask) h e keeper (λ i. refl)))
        (λ changed. with_mask-Inv s t (claims mask) h e (λ i. refl))
  producer-Inv (unparks i) e = unpark-Inv s t i h e

  begin-Inv : (p : Producer) → get_elem? s.producers t ≡ some p → Inv (begin s t p)
  begin-Inv outside e = record {
    staffed = h.staffed;
    counted = h.counted;
    served = ground (arith, h.served, sum_by-set notifying s.producers t outside pushes e);
    owed = λ j v place waiting.
        keeps s t outside h e pushes v j (omega arith) (h.owed j v place waiting);
  }
  begin-Inv p e = h

at_worker-Inv :
    (s : System) (i : ℕ) (f : Worker → System)
    → Inv s
    → ((w : Worker) → get_elem? s.workers i ≡ some w → Inv (f w))
    → Inv (at_worker s i f)
at_worker-Inv s i f h step = found (get_elem? s.workers i) refl
  where
    found :
        (o : Option Worker)
        → get_elem? s.workers i ≡ o
        → Inv (elim o as (λ _. System) [ none ↦ s | some w ↦ f w ])
    found none e = h
    found (some w) e = step w e

at_producer-Inv :
    (s : System) (t : ℕ) (f : Producer → System)
    → Inv s
    → ((p : Producer) → get_elem? s.producers t ≡ some p → Inv (f p))
    → Inv (at_producer s t f)
at_producer-Inv s t f h step = found (get_elem? s.producers t) refl
  where
    found :
        (o : Option Producer)
        → get_elem? s.producers t ≡ o
        → Inv (elim o as (λ _. System) [ none ↦ s | some p ↦ f p ])
    found none e = h
    found (some p) e = step p e

advance-Inv : (s : System) (e : Event) → Inv s → Inv (advance s e)
unfolding advance
advance-Inv s (works i gives_up) h =
    at_worker-Inv s i _ h (λ w at. run_worker-Inv gives_up s i w h at w.point refl)
advance-Inv s (finds i) h = at_worker-Inv s i _ h (λ w at. find-Inv s i w h at w.point refl)
advance-Inv s (turns i) h = at_worker-Inv s i _ h (λ w at. turn-Inv s i w h at w.point refl)
advance-Inv s (injects t) h = at_producer-Inv s t _ h (λ p at. begin-Inv s t none h p at)
advance-Inv s (notifies t keeper) h =
    at_producer-Inv s t _ h (λ p at. producer-Inv s t keeper h p at)

history-Inv : (s : System) (es : List Event) → Inv s → Inv (history s es)
unfolding history
history-Inv s [] h = h
history-Inv s (e ∷ es) h = history-Inv (advance s e) es (advance-Inv s e h)

abbrev rested : Worker
rested = record { point = busy; is_idle = false; token = false }

-- A worker that runs tasks waits for nothing.
all_rested : (n i : ℕ) (w : Worker) → get_elem? (replicate n rested) i ≡ some w → w.point ≡ busy
all_rested zero i w e = cc
all_rested (suc n) zero w e = ap (λ (v : Worker). v.point) (sym (some-injective _ _ e))
all_rested (suc n) (suc i) w e = all_rested n i w e

rested-IsOwed : (ps : List Producer) (i : ℕ) (w : Worker) → w.point ≡ busy → IsOwed ps i w
rested-IsOwed ps i w e waiting = absurd (false≢true (sym (ap waits e) ∙ waiting))

started-Inv : (workers parties : ℕ) → 0 < workers → Inv (started workers parties)
started-Inv workers parties some_worker = record {
  staffed = omega (arith, length-replicate workers rested);
  counted = sym (sum_by-replicate seeking rested refl workers);
  served = inl refl;
  owed = λ i w e. rested-IsOwed (replicate parties outside) i w (all_rested workers i w e);
}

-- The worker is not asleep, or it has a token, or a party is about to give it one.
abbrev pub WillLook : System → ℕ → Worker → Type 0
WillLook s i w =
    (is_asleep w.point ≡ false) ⊎ ((w.token ≡ true) ⊎ (0 < sum_by (waking i) s.producers))

awake-WillLook :
    (s : System) (i : ℕ) (w : Worker) → IsOwed s.producers i w → 0 < awake w → WillLook s i w
awake-WillLook s i w owed up = by_point w.point refl
  where
    by_point : (p : Point) → w.point ≡ p → WillLook s i w
    by_point p e = ground (arith, owed)

-- In a scheduler without a Driver, after any history of one worker or more and of any parties that
-- inject tasks, whatever the workers find elsewhere, however long they spin or sleep, and also when a
-- worker gives up on a queue that is busy with a push: while there are tasks in the injection queue,
-- no party is in the middle of its push and every party that pushed one has looked for a worker,
-- some worker is not asleep, or has a token that wakes it, or a party that has claimed it is about to
-- give it one.
pub injected_is_noticed :
    (workers parties : ℕ) (es : List Event)
    → 0 < workers
    → let s = history (started workers parties) es in
      0 < s.injected
      → sum_by notifying s.producers ≡ 0
      → (i : ℕ) × (w : Worker) × (get_elem? s.workers i ≡ some w) × WillLook s i w
injected_is_noticed workers parties es some_worker more quiet =
    let s = history (started workers parties) es in
    let h = history-Inv (started workers parties) es (started-Inv workers parties some_worker) in
    let (i, w, at, up) = sum_by-place awake s.workers (ground (arith, h.served)) in
    (i, w, at, awake-WillLook s i w (h.owed i w at) up)
