-- ===== src/Sched/Parking/Weight.antt =====
-- The weights of the points of the parking protocol, and what a move of a thread does to their sums.
use stackfull.Base.{
  ℕ, ◌+◌, ◌≤◌, ◌≡◌, true, ◌||◌, some, List, arith, ◌==◌, if◌then◌else◌, get_elem?, set, sum_by,
  sum_by-set, le-sum_by, sum_by_mono,
}
use stackfull.Sched.Parking.{
  done, notified, raw, Runner, consumes, parks, hook_stores, hook_schedules, away, drops, bumps,
  awaits, freed, Point, checks, loads, looks, tries, stores, schedules, unpins, reap_loads, claims,
  reap_unpins, shields, puts_back, reap_stores, reap_schedules, unwinds, System,
}

-- The task's own execution has the task: everywhere but where it was left alone.
abbrev pub held : Runner → ℕ
held away = 0
held r = 1

-- A thread has the task: it took it out of the parked state, and has not handed it on.
abbrev pub holding : Point → ℕ
holding stores = 1
holding schedules = 1
holding (reap_unpins true) = 1
holding shields = 1
holding puts_back = 1
holding reap_stores = 1
holding reap_schedules = 1
holding unwinds = 1
holding p = 0

abbrev pub pinning : Point → ℕ
pinning (checks g) = 1
pinning loads = 1
pinning looks = 1
pinning (tries seen) = 1
pinning stores = 1
pinning schedules = 1
pinning (unpins woke) = 1
pinning reap_loads = 1
pinning claims = 1
pinning (reap_unpins claimed) = 1
pinning p = 0

-- A thread that is about to read or write the task, under its pin.
abbrev pub reading : Point → ℕ
reading looks = 1
reading (tries seen) = 1
reading stores = 1
reading schedules = 1
reading claims = 1
reading p = 0

-- The task is on its way back to a run queue after a wake.
abbrev pub late_runner : Runner → ℕ
late_runner hook_stores = 1
late_runner hook_schedules = 1
late_runner r = 0

abbrev pub late : Point → ℕ
late stores = 1
late schedules = 1
late reap_stores = 1
late reap_schedules = 1
late p = 0

-- The points of the task inside `park`.
abbrev pub parking : Runner → ℕ
parking consumes = 1
parking parks = 1
parking hook_stores = 1
parking hook_schedules = 1
parking r = 0

abbrev pub ended : Runner → ℕ
ended drops = 1
ended bumps = 1
ended awaits = 1
ended freed = 1
ended r = 0

abbrev pub unlisted : Runner → ℕ
unlisted bumps = 1
unlisted awaits = 1
unlisted freed = 1
unlisted r = 0

abbrev pub gone : Runner → ℕ
gone freed = 1
gone r = 0

-- A waker that goes on although it has seen a token, or that the task is done.
abbrev pub misled : Point → ℕ
misled (tries seen) = if seen == raw notified || seen == raw done then 1 else 0
misled p = 0

abbrev pub one : Point → ℕ
one p = 1

-- Thread `t` goes from `p` to `q`.
abbrev pub Moved : System → ℕ → Point → Point → Type 0
Moved s t p q =
    (sum_by holding (set s.threads t q) + holding p ≡ sum_by holding s.threads + holding q)
    × (sum_by pinning (set s.threads t q) + pinning p ≡ sum_by pinning s.threads + pinning q)
    × (sum_by reading (set s.threads t q) + reading p ≡ sum_by reading s.threads + reading q)
    × (sum_by late (set s.threads t q) + late p ≡ sum_by late s.threads + late q)
    × (sum_by misled (set s.threads t q) + misled p ≡ sum_by misled s.threads + misled q)
    × (sum_by one (set s.threads t q) ≡ sum_by one s.threads)

pub moved : (s : System) (t : ℕ) (p q : Point) → get_elem? s.threads t ≡ some p → Moved s t p q
moved s t p q e = (
  sum_by-set holding s.threads t p q e,
  sum_by-set pinning s.threads t p q e,
  sum_by-set reading s.threads t p q e,
  sum_by-set late s.threads t p q e,
  sum_by-set misled s.threads t p q e,
  omega (arith, sum_by-set one s.threads t p q e),
)

-- What the sums say of the threads.
abbrev pub Sums : List Point → Type 0
Sums ps =
    (sum_by late ps ≤ sum_by holding ps)
    × (sum_by reading ps ≤ sum_by pinning ps)
    × (sum_by pinning ps ≤ sum_by one ps)

sum_by-le :
    (f g : Point → ℕ) → ((p : Point) → f p ≤ g p) → (ps : List Point) → sum_by f ps ≤ sum_by g ps
sum_by-le f g le ps = omega (arith, sum_by_mono f (λ _. 0) g (λ p. omega (arith, le p)) ps)

late-holding : (p : Point) → late p ≤ holding p
late-holding p = ground arith

reading-pinning : (p : Point) → reading p ≤ pinning p
reading-pinning p = ground arith

pinning-one : (p : Point) → pinning p ≤ one p
pinning-one p = ground arith

pub sums : (ps : List Point) → Sums ps
sums ps = (
  sum_by-le late holding late-holding ps,
  sum_by-le reading pinning reading-pinning ps,
  sum_by-le pinning one pinning-one ps,
)

-- What the point of the task says of its weights.
abbrev pub Stages : Runner → Type 0
Stages r =
    (held r ≤ 1)
    × (ended r ≤ held r)
    × (unlisted r ≤ ended r)
    × (gone r ≤ unlisted r)
    × (late_runner r ≤ parking r)
    × (parking r + ended r ≤ held r)

pub stages : (r : Runner) → Stages r
stages r = ground arith

-- What the point of a thread adds to the sums.
abbrev pub Least : System → Point → Type 0
Least s p =
    (holding p ≤ sum_by holding s.threads)
    × (reading p ≤ sum_by reading s.threads)
    × (late p ≤ sum_by late s.threads)
    × (misled p ≤ sum_by misled s.threads)

pub least : (s : System) (t : ℕ) (p : Point) → get_elem? s.threads t ≡ some p → Least s p
least s t p e = (
  le-sum_by holding s.threads t p e,
  le-sum_by reading s.threads t p e,
  le-sum_by late s.threads t p e,
  le-sum_by misled s.threads t p e,
)
