-- ===== src/Sched/SlotCache.antt =====
-- The free slots of a scheduler: tryAcquireSlot and releaseSlot in sched/src/SchedulerCore.cpp, and
-- the caches of the workers, sched/include/stackfull/sched/detail/Worker.h. A step is one critical
-- section on a cache, or one access to the shared list, a first-in first-out queue of slots.
mod Sections
mod Conserve
mod Alone
mod Search
mod Tests
use stackfull.Base.{
  ℕ, zero, suc, ◌+◌, Bool, false, Option, none, some, List, [], ◌∷◌, ◌++◌, ◌==◌, if◌then◌else◌,
  length, get_elem?, set, take, drop,
}
use mathlib.Core.List.{reverse}

abbrev pub capacity : ℕ
capacity = 64

abbrev pub batch : ℕ
batch = 32  -- slots that move to or from the shared list at once

-- Where a party stands: outside, or done with a call that gave what it gives; in `tryAcquireSlot`,
-- before the section on its own cache, before its turn at the shared list, in the loop over the
-- workers' caches, before its last turn at the list; and in `releaseSlot` with a slot.
pub data Point : Type 0 where
  outside refills pops : Point
  scans : ℕ → Point
  last_pop : Point
  acquired : ℕ → Point
  refused : Point
  releases : ℕ → Point

-- The shared list, the cache of each worker, its newest slot first, and the parties.
pub record Slots : Type 0 where
  pub free_slots : List ℕ
  pub caches : List (List ℕ)
  pub points : List Point

abbrev pub go : Slots → ℕ → Point → Slots
go s t p = record s { points = set s.points t p }

-- The loop that fills a cache from the shared list, for the places that are left.
pub refill : ℕ → List ℕ → List ℕ → List ℕ × List ℕ
refill zero free cache = (free, cache)
refill (suc n) [] cache = ([], cache)
refill (suc n) (slot ∷ free) cache = refill n free (slot ∷ cache)

-- The newest slot of cache `w`, which is `cache`; or on to the next turn.
abbrev pub take_newest : Slots → ℕ → ℕ → List ℕ → Point → Slots
take_newest s t w [] next = go s t next
take_newest s t w (slot ∷ cache) next =
    go (record s { caches = set s.caches w cache }) t (acquired slot)

abbrev pub pop_shared : Slots → ℕ → List ℕ → Point → Slots
pop_shared s t [] next = go s t next
pop_shared s t (slot ∷ free) next = go (record s { free_slots = free }) t (acquired slot)

-- The section on one's own cache: an empty one is filled first.
abbrev pub take_own : Slots → ℕ → ℕ → List ℕ → Slots
take_own s t w [] =
    let (free, cache) = refill batch s.free_slots [] in
    take_newest (record s { free_slots = free; caches = set s.caches w cache }) t w cache (scans 0)
take_own s t w (slot ∷ cache) = take_newest s t w (slot ∷ cache) (scans 0)

-- The section of a release: the oldest slots of a full cache go back to the shared list.
abbrev pub put_back : Slots → ℕ → ℕ → List ℕ → ℕ → Slots
put_back s t w cache slot =
    if length cache == capacity
    then go
        (record s {
          free_slots = s.free_slots ++ reverse (drop batch cache);
          caches = set s.caches w (slot ∷ take batch cache);
        })
        t outside
    else go (record s { caches = set s.caches w (slot ∷ cache) }) t outside

-- Whether the cache that the loop has come to is one's own.
abbrev pub is_own : Option ℕ → ℕ → Bool
is_own none w = false
is_own (some me) w = me == w

-- A worker that does not exist has no cache.
abbrev pub at_cache : Slots → ℕ → (List ℕ → Slots) → Slots → Slots
at_cache s w f otherwise = elim (get_elem? s.caches w) [ none ↦ otherwise | some c ↦ f c ]

-- The first look, at one's own cache, or else at the shared list.
abbrev pub look_first : Slots → ℕ → Option ℕ → Slots
look_first s t none = go s t pops
look_first s t (some w) = at_cache s w (take_own s t w) s

-- `tryAcquireSlot` of a party that is on worker `me`, or on no worker.
abbrev pub try_acquire_slot : Slots → ℕ → Option ℕ → Point → Slots
try_acquire_slot s t me refills = look_first s t me
try_acquire_slot s t me pops = pop_shared s t s.free_slots (scans 0)
try_acquire_slot s t me (scans w) =
    if is_own me w
    then go s t (scans (w + 1))
    else at_cache s w (λ cache. take_newest s t w cache (scans (w + 1))) (go s t last_pop)
try_acquire_slot s t me last_pop = pop_shared s t s.free_slots refused
try_acquire_slot s t me p = s

abbrev pub release_slot : Slots → ℕ → Option ℕ → ℕ → Slots
release_slot s t none slot = go (record s { free_slots = s.free_slots ++ slot ∷ [] }) t outside
release_slot s t (some w) slot = at_cache s w (λ cache. put_back s t w cache slot) s

-- The next step of a party.
pub run_point : Slots → ℕ → Option ℕ → Point → Slots
run_point s t me outside = s
run_point s t me (acquired slot) = s
run_point s t me refused = s
run_point s t me (releases slot) = release_slot s t me slot
run_point s t me p = try_acquire_slot s t me p

-- A party begins to acquire, or to release the slot that it got; makes its next step.
pub data Event : Type 0 where
  acquires releases_slot runs : ℕ → Event

abbrev pub begin : Slots → ℕ → Option ℕ → Point → Slots
begin s t none outside = go s t pops
begin s t (some w) outside = go s t refills
begin s t none refused = go s t pops
begin s t (some w) refused = go s t refills
begin s t me p = s

abbrev pub begin_release : Slots → ℕ → Point → Slots
begin_release s t (acquired slot) = go s t (releases slot)
begin_release s t p = s

abbrev pub at_point : Slots → ℕ → (Point → Slots) → Slots
at_point s t f = elim (get_elem? s.points t) [ none ↦ s | some p ↦ f p ]

-- `worker_of` says on which worker each party is.
pub advance : (ℕ → Option ℕ) → Slots → Event → Slots
advance worker_of s (acquires t) = at_point s t (begin s t (worker_of t))
advance worker_of s (releases_slot t) = at_point s t (begin_release s t)
advance worker_of s (runs t) = at_point s t (run_point s t (worker_of t))

pub history : (ℕ → Option ℕ) → Slots → List Event → Slots
history worker_of s [] = s
history worker_of s (e ∷ es) = history worker_of (advance worker_of s e) es
