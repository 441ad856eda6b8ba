-- ===== src/Sched/Idle/Notify.antt =====
-- The steps of the parties that inject.
use stackfull.Base.{
  ℕ, ◌≤◌, ◌<◌, ◌≡◌, refl, ◌⊎◌, inl, inr, true, false, Option, none, some, arith, ==_refl, get_elem?,
  set, length-set, get_elem?-set, get_elem?-none, sum_by, sum_by-set, le-sum_by,
}
use stackfull.Sched.Idle.Awake.{everywhere, awake, seeking, notifying, waking, IsOwed, Inv}
use stackfull.Sched.Idle.{
  Worker, Producer, outside, claims, unparks, System, move, at_work, idle_mask, lowest, candidate,
  with_mask, claim,
}
use stackfull.Sched.Idle.Mask.{nobody_idle, candidate-lt, candidate-none, length-idle_mask}

module _ (s : System) (t : ℕ) (p : Producer) (h : Inv s)
    (at : get_elem? s.producers t ≡ some p) where
  -- A wake on its way to a worker stays so.
  pub keeps :
      (q : Producer) (w : Worker) (i : ℕ)
      → waking i p ≤ waking i q
      → (w.is_idle ≡ true) ⊎ ((w.token ≡ true) ⊎ (0 < sum_by (waking i) s.producers))
      → (w.is_idle ≡ true) ⊎ ((w.token ≡ true) ⊎ (0 < sum_by (waking i) (set s.producers t q)))
  keeps q w i more (inl idle) = inl idle
  keeps q w i more (inr (inl token)) = inr (inl token)
  keeps q w i more (inr (inr wakes)) =
      inr (inr (omega (arith, sum_by-set (waking i) s.producers t p q at, more, wakes)))

  -- A step that leaves the workers alone: the party is still to notify, or some worker is awake.
  pub told :
      (q : Producer) (n : ℕ)
      → ((i : ℕ) → waking i p ≤ waking i q)
      → (notifying q ≡ 1) ⊎ (0 < sum_by awake s.workers)
      → Inv (record s { injected = n; producers = set s.producers t q })
  told q n more served = record {
    staffed = h.staffed;
    counted = h.counted;
    served = serves served;
    owed = λ i w found waiting. keeps q w i (more i) (h.owed i w found waiting);
  }
    where
      serves :
          (notifying q ≡ 1) ⊎ (0 < sum_by awake s.workers)
          → (n ≡ 0) ⊎ ((0 < sum_by notifying (set s.producers t q)) ⊎ (0 < sum_by awake s.workers))
      serves (inl will) = inr (
          inl (
            omega (
              arith,
              le-sum_by notifying (set s.producers t q) t q (get_elem?-set s.producers t p q at),
              will,
            )))
      serves (inr up) = inr (inr up)

  pub silent : ((i : ℕ) → waking i p ≡ 0) → (q : Producer) (i : ℕ) → waking i p ≤ waking i q
  silent none_waking q i = omega (arith, none_waking i)

  pub with_mask-Inv : ((i : ℕ) → waking i p ≡ 0) → Inv (with_mask s t (idle_mask s.workers))
  with_mask-Inv quiet = seen (lowest (idle_mask s.workers)) refl
    where
      seen :
          (o : Option ℕ)
          → lowest (idle_mask s.workers) ≡ o
          → Inv (elim o as (λ _. System) [
            | none ↦ move s t outside
            | some i ↦ move s t (claims (idle_mask s.workers))
          ])
      seen none e =
          told outside s.injected (silent quiet outside) (inr (nobody_idle s.workers e h.staffed))
      seen (some i) e =
          told (claims (idle_mask s.workers)) s.injected
            (silent quiet (claims (idle_mask s.workers))) (inl refl)

  -- The claim of worker `i`: it is on its way to be woken.
  claimed :
      (i : ℕ) (w : Worker)
      → ((j : ℕ) → waking j p ≡ 0)
      → get_elem? s.workers i ≡ some w
      → Inv (move (at_work s i (record w { is_idle = false })) t (unparks i))
  claimed i w quiet found = record {
    staffed = omega (arith, length-set s.workers i new, h.staffed);
    counted = omega (arith, sum_by-set seeking s.workers i w new found, h.counted);
    served = inr (
        inr (
          omega (
            arith,
            le-sum_by awake (set s.workers i new) i new (get_elem?-set s.workers i w new found),
            up,
          )));
    owed =
        everywhere (IsOwed (set s.producers t (unparks i))) s.workers i new
          (λ j v ne place waiting.
            keeps (unparks i) v j (silent quiet (unparks i) j) (h.owed j v place waiting))
          (λ waiting. inr (
            inr (
              omega (
                arith,
                le-sum_by (waking i) (set s.producers t (unparks i)) t (unparks i)
                    (get_elem?-set s.producers t p (unparks i) at),
                wakes_it,
              ))));
  }
    where
      new : Worker
      new = record w { is_idle = false }

      up : awake (record w { is_idle = false }) ≡ 1
      up = ground arith

      wakes_it : waking i (unparks i) ≡ 1
      wakes_it = rw (==_refl i) refl

  pub claim-Inv :
      (keeper : Option ℕ)
      → ((j : ℕ) → waking j p ≡ 0)
      → Inv (claim s t (candidate (idle_mask s.workers) keeper))
  claim-Inv keeper quiet = chosen (candidate (idle_mask s.workers) keeper) refl
    where
      at_place :
          (i : ℕ)
          → candidate (idle_mask s.workers) keeper ≡ some i
          → (o : Option Worker) → get_elem? s.workers i ≡ o
          → Inv (elim o as (λ _. System) [
            | none ↦ move s t outside
            | some w ↦ move (at_work s i (record w { is_idle = false })) t (unparks i)
          ])
      at_place i e none found = absurd (
          omega (
            arith,
            candidate-lt (idle_mask s.workers) keeper i e,
            length-idle_mask s.workers,
            get_elem?-none s.workers i found,
          ))
      at_place i e (some w) found = claimed i w quiet found

      chosen : (o : Option ℕ) → candidate (idle_mask s.workers) keeper ≡ o → Inv (claim s t o)
      chosen none e =
          told outside s.injected (silent quiet outside)
            (inr (nobody_idle s.workers (candidate-none (idle_mask s.workers) keeper e) h.staffed))
      chosen (some i) e = at_place i e (get_elem? s.workers i) refl
