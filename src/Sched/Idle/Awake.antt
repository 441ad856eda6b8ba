-- ===== src/Sched/Idle/Awake.antt =====
-- Which workers are awake, and what holds between any two accesses.
use stackfull.Base.{
  ℕ, zero, suc, ◌+◌, ◌≤◌, ◌<◌, ◌≡◌, refl, subst, ◌≢◌, ◌⊎◌, inl, inr, Bool, true, false, ◌&&◌, some,
  List, [], ◌∷◌, arith, ◌==◌, if◌then◌else◌, length, get_elem?, set, length-set, get_elem?-set,
  sum_by, sum_by-set, le-sum_by, sum_by_mono,
}
use mathlib.Core.Option.{some-injective}
use stackfull.Sched.Idle.{
  Point, spins, looks_again, asleep, searches, retries, steps_down, spin_ends, Worker, Producer,
  commits, asks, reads, claims, unparks, System, is_committing,
}

abbrev pub is_asleep : Point → Bool
is_asleep asleep = true
is_asleep p = false

-- A worker that has not fallen asleep with its bit set: it will look for tasks, or is being woken.
abbrev pub awake : Worker → ℕ
awake w = if is_asleep w.point && w.is_idle then 0 else 1

-- The workers that `searching` counts.
abbrev pub seeker : Point → ℕ
seeker (searches true) = 1
seeker retries = 1
seeker (steps_down b) = 1
seeker spins = 1
seeker (spin_ends b) = 1
seeker p = 0

abbrev pub seeking : Worker → ℕ
seeking w = seeker w.point

-- A party that is pushing a task, or has, and has not yet found that somebody knows.
abbrev pub notifying : Producer → ℕ
notifying commits = 1
notifying asks = 1
notifying reads = 1
notifying (claims mask) = 1
notifying p = 0

abbrev pub waking : ℕ → Producer → ℕ
waking i (unparks j) = if j == i then 1 else 0
waking i p = 0

-- Marked, and about to sleep or asleep.
abbrev pub waits : Point → Bool
waits looks_again = true
waits asleep = true
waits p = false

abbrev pub IsOwed : List Producer → ℕ → Worker → Type 0
IsOwed ps i w =
    waits w.point ≡ true → (w.is_idle ≡ true) ⊎ ((w.token ≡ true) ⊎ (0 < sum_by (waking i) ps))

pub record Inv (s : System) : Type 0 where
  pub staffed : 0 < length s.workers
  pub counted : s.searching ≡ sum_by seeking s.workers
  pub served :
      (s.injected ≡ 0) ⊎ ((0 < sum_by notifying s.producers) ⊎ (0 < sum_by awake s.workers))
  pub owed : (i : ℕ) (w : Worker) → get_elem? s.workers i ≡ some w → IsOwed s.producers i w

seeking-awake : (w : Worker) → seeking w + 0 ≤ awake w
seeking-awake w = by_point w.point refl
  where
    by_point : (p : Point) → w.point ≡ p → seeking w + 0 ≤ awake w
    by_point p e = ground arith

-- A searcher is awake.
pub seekers_awake : (ws : List Worker) → sum_by seeking ws ≤ sum_by awake ws
seekers_awake ws = omega (arith, sum_by_mono seeking (λ _. 0) awake seeking-awake ws)

-- What holds of every other place, and of the one that is written, holds after the write.
pub everywhere :
    (P : ℕ → Worker → Type 0) (ws : List Worker) (i : ℕ) (new : Worker)
    → ((j : ℕ) (w : Worker) → j ≢ i → get_elem? ws j ≡ some w → P j w)
    → P i new
    → (j : ℕ) (w : Worker) → get_elem? (set ws i new) j ≡ some w
    → P j w
everywhere P [] i new old fresh j w e = cc
everywhere P (v ∷ ws) zero new old fresh zero w e = subst (P zero) (some-injective _ _ e) fresh
everywhere P (v ∷ ws) zero new old fresh (suc j) w e = old (suc j) w (omega arith) e
everywhere P (v ∷ ws) (suc i) new old fresh zero w e = old zero w (omega arith) e
everywhere P (v ∷ ws) (suc i) new old fresh (suc j) w e =
    everywhere (λ k. P (suc k)) ws i new
      (λ k v ne. old (suc k) v (λ same. ne (omega (arith, same)))) fresh j w e

-- One step of worker `i`: it is awake afterwards, or no task is left in the queue, or a party is
-- still to notify.
pub stepped_beside :
    (s : System) (i : ℕ) (w new : Worker) (n m : ℕ)
    → Inv s
    → get_elem? s.workers i ≡ some w
    → m + seeker w.point ≡ s.searching + seeker new.point
    → (n ≡ 0) ⊎ ((0 < sum_by notifying s.producers) ⊎ (awake new ≡ 1))
    → IsOwed s.producers i new
    → Inv (record s { injected = n; searching = m; workers = set s.workers i new })
stepped_beside s i w new n m h at count served owed = record {
  staffed = omega (arith, length-set s.workers i new, h.staffed);
  counted = omega (arith, sum_by-set seeking s.workers i w new at, h.counted);
  served = serves served;
  owed = everywhere (IsOwed s.producers) s.workers i new (λ j v ne. h.owed j v) owed;
}
  where
    serves :
        (n ≡ 0) ⊎ ((0 < sum_by notifying s.producers) ⊎ (awake new ≡ 1))
        → (n ≡ 0) ⊎ ((0 < sum_by notifying s.producers) ⊎ (0 < sum_by awake (set s.workers i new)))
    serves (inl empty) = inl empty
    serves (inr (inl will)) = inr (inl will)
    serves (inr (inr up)) = inr (
        inr (
          omega (
            arith,
            le-sum_by awake (set s.workers i new) i new (get_elem?-set s.workers i w new at),
            up,
          )))

pub stepped :
    (s : System) (i : ℕ) (w new : Worker) (n m : ℕ)
    → Inv s
    → get_elem? s.workers i ≡ some w
    → m + seeker w.point ≡ s.searching + seeker new.point
    → (n ≡ 0) ⊎ (awake new ≡ 1)
    → IsOwed s.producers i new
    → Inv (record s { injected = n; searching = m; workers = set s.workers i new })
stepped s i w new n m h at count served owed =
    stepped_beside s i w new n m h at count
      (elim served [ inl empty ↦ inl empty | inr up ↦ inr (inr up) ]) owed

-- A party in the middle of its push will notify.
pub committing_will : (ps : List Producer) → is_committing ps ≡ true → 0 < sum_by notifying ps
committing_will [] e = cc
committing_will (p ∷ ps) e = by_point p e (committing_will ps)
  where
    by_point :
        (p : Producer)
        → is_committing (p ∷ ps) ≡ true
        → (is_committing ps ≡ true → 0 < sum_by notifying ps)
        → 0 < sum_by notifying (p ∷ ps)
    by_point commits e ih = omega arith
    by_point p e ih = ground (arith, ih)
